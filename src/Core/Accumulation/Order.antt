-- ===== src/Core/Accumulation/Order.antt =====
-- A report is accumulated after the packages that it depends on.
use tsjam.Prelude.{
  ℕ, zero, suc, ◌≡◌, arith, inl, inr, Bool, true, ◌&&◌, ◌||◌, some, List, [], ◌∷◌, ◌++◌, map, All,
  All-append, All-take, All-drop, any-append, filter, Bool-cases, length, take, drop, ◌==◌, some_eq,
  >>=-eq-some, subst,
}
use tsjam.Core.Bytes.{Bytes, bytes_eq}
use tsjam.Core.Constants.{Constants}
use tsjam.Core.IdentitySet.{
  has, has-from_values, has-delete_all, has-add_all, from_values, delete_all,
}
use tsjam.Core.Slot.{slot_phase}
use tsjam.Core.Reports.{WorkReport}
use tsjam.Core.Accumulation.Queue.{
  AccumulationQueueItem, is_empty, flat, package_hashes, extract_work_package_hashes, e_fn,
  without_dependencies, compute_accumulation_priority, union, is_immediate, immediately_accumulable,
  queue_item, queueable, candidates, accumulatable_reports,
}

-- The packages that a report depends on: its prerequisites and those of its segment lookup.
abbrev pub depends_on : WorkReport → Bytes → Bool
depends_on wr h = has wr.prerequisites h || has wr.sr_lookup h

-- Every package that the report depends on is done.
abbrev pub IsReady : List Bytes → WorkReport → Type 0
IsReady done wr = (h : Bytes) → depends_on wr h ≡ true → has done h ≡ true

-- The item still waits for every package of its report that is not done.
abbrev pub Awaits : List Bytes → AccumulationQueueItem → Type 0
Awaits done item =
    (h : Bytes)
    → depends_on item.work_report h ≡ true
    → (has done h || has item.dependencies h) ≡ true

-- Each report comes when the packages it depends on are done, those before it included.
abbrev pub Ordered : List Bytes → List WorkReport → Type 0
Ordered done [] = Unit {0}
Ordered done (wr ∷ ws) = IsReady done wr × Ordered (wr.package_hash ∷ done) ws

abbrev pub Includes : List Bytes → List Bytes → Type 0
Includes done done' = (h : Bytes) → has done h ≡ true → has done' h ≡ true

Ordered-mono :
    (done done' : List Bytes) (ws : List WorkReport)
    → Includes done done'
    → Ordered done ws
    → Ordered done' ws
Ordered-mono done done' [] inc o = tt
Ordered-mono done done' (wr ∷ ws) inc o = (
  (λ h d. inc h (o.0 h d)),
  Ordered-mono (wr.package_hash ∷ done) (wr.package_hash ∷ done') ws (λ h e. ground (arith, inc h))
      o.1,
)

pub has-append : (xs ys : List Bytes) (h : Bytes) → has (xs ++ ys) h ≡ has xs h || has ys h
has-append xs ys h = any-append (λ x. bytes_eq x h) xs ys

-- Ready reports, then those that are in order when they are done.
Ordered-append :
    (done : List Bytes) (gs ws : List WorkReport)
    → All (IsReady done) gs
    → Ordered (package_hashes gs ++ done) ws
    → Ordered done (gs ++ ws)
Ordered-append done [] ws ready o = o
Ordered-append done (g ∷ gs) ws ready o = (
  ready.0,
  Ordered-append (g.package_hash ∷ done) gs ws (later gs ready.1) (
      Ordered-mono (package_hashes (g ∷ gs) ++ done) (package_hashes gs ++ (g.package_hash ∷ done))
        ws
        (λ h e. ground (
          arith,
          has-append (package_hashes gs) done h,
          has-append (package_hashes gs) (g.package_hash ∷ done) h,
        ))
        o),
)
  where
    later :
        (us : List WorkReport) → All (IsReady done) us → All (IsReady (g.package_hash ∷ done)) us
    later [] r = tt
    later (u ∷ us) r = ((λ h d. ground (arith, r.0 h d)), later us r.1)

-- `E_Fn` takes away what has been done.
pub e_fn-Awaits :
    (done x : List Bytes) (r : List AccumulationQueueItem)
    → All (Awaits done) r
    → All (Awaits (x ++ done)) (e_fn r x)
unfolding e_fn
e_fn-Awaits done x [] h = tt
e_fn-Awaits done x (item ∷ r) h = elim (Bool-cases (has x item.work_report.package_hash)) [
  | inl gone ↦ rw gone (e_fn-Awaits done x r h.1)
  | inr stays ↦ rw stays (waits, e_fn-Awaits done x r h.1)
]
  where
    waits :
        (k : Bytes)
        → depends_on item.work_report k ≡ true
        → (has (x ++ done) k || has (delete_all (from_values item.dependencies) x) k) ≡ true
    waits k d = ground (
      arith,
      h.0 k d,
      has-append x done k,
      has-delete_all k (from_values item.dependencies) x,
      has-from_values k item.dependencies,
    )

pub Awaits-mono :
    (done done' : List Bytes) (r : List AccumulationQueueItem)
    → Includes done done'
    → All (Awaits done) r
    → All (Awaits done') r
Awaits-mono done done' [] inc h = tt
Awaits-mono done done' (item ∷ r) inc h =
    ((λ k d. ground (arith, inc k, h.0 k d)), Awaits-mono done done' r inc h.1)

-- An item that waits for nothing is ready.
without_dependencies-IsReady :
    (done : List Bytes) (r : List AccumulationQueueItem)
    → All (Awaits done) r
    → All (IsReady done) (without_dependencies r)
without_dependencies-IsReady done [] h = tt
without_dependencies-IsReady done (item ∷ r) h = elim (Bool-cases (is_empty item.dependencies)) [
  | inr waits ↦ rw waits (without_dependencies-IsReady done r h.1)
  | inl free ↦ rw free (ready item.dependencies free h.0, without_dependencies-IsReady done r h.1)
]
  where
    ready :
        (ds : List Bytes)
        → is_empty ds ≡ true
        → ((k : Bytes) → depends_on item.work_report k ≡ true → (has done k || has ds k) ≡ true)
        → IsReady done item.work_report
    ready [] e w = λ k d. ground (arith, w k d)
    ready (x ∷ ds) e w = cc

-- The set of package hashes has those of the reports.
known :
    (done : List Bytes) (g : List WorkReport)
    → Includes (extract_work_package_hashes g ++ done) (package_hashes g ++ done)
unfolding extract_work_package_hashes
known done g k e = ground (
  arith,
  has-append (from_values (package_hashes g)) done k,
  has-append (package_hashes g) done k,
  has-from_values k (package_hashes g),
)

-- The order of `computeAccumulationPriority`.
pub compute_accumulation_priority-Ordered :
    (rounds : ℕ) (done : List Bytes) (r : List AccumulationQueueItem) (ws : List WorkReport)
    → All (Awaits done) r
    → compute_accumulation_priority rounds r ≡ some ws
    → Ordered done ws
unfolding compute_accumulation_priority extract_work_package_hashes
compute_accumulation_priority-Ordered zero done r ws h e = cc
compute_accumulation_priority-Ordered (suc rounds) done r ws h e =
    let g = without_dependencies r in
    let rest = compute_accumulation_priority rounds (e_fn r (from_values (package_hashes g))) in
    elim (Bool-cases (length g == 0)) [
      | inl none_free ↦ subst (Ordered done) (some_eq (rw none_free at e)) tt
      | inr some_free ↦
          let parts = >>=-eq-some rest (λ us. some (g ++ us)) (rw some_free at e) in
          subst (Ordered done) (some_eq parts.2) (
            Ordered-append done g parts.0 (without_dependencies-IsReady done r h) (
              Ordered-mono (from_values (package_hashes g) ++ done) (package_hashes g ++ done)
                parts.0 (known done g)
                (compute_accumulation_priority-Ordered rounds
                  (from_values (package_hashes g) ++ done) (e_fn r (from_values (package_hashes g)))
                  parts.0 (e_fn-Awaits done (from_values (package_hashes g)) r h) parts.1)))
    ]

-- An item made from a report waits for all that the report depends on.
items-Awaits :
    (p : WorkReport → Bool) (elements : List WorkReport)
    → All (Awaits []) (map queue_item (filter p elements))
items-Awaits p [] = tt
items-Awaits p (wr ∷ elements) = elim (Bool-cases (p wr)) [
  | inr out ↦ rw out (items-Awaits p elements)
  | inl chosen ↦ rw chosen (
    (λ k d. ground (
      arith,
      has-add_all k (from_values wr.sr_lookup) wr.prerequisites,
      has-from_values k wr.sr_lookup,
    )),
    items-Awaits p elements,
  )
]

pub queueable-Awaits :
    (done : List Bytes) (elements : List WorkReport) (acc_history : List (List Bytes))
    → Includes (union acc_history) done
    → All (Awaits done) (queueable elements acc_history)
unfolding queueable
queueable-Awaits done elements acc_history inc =
    Awaits-mono (union acc_history ++ []) done (queueable elements acc_history)
      (λ k e. ground (arith, inc k, has-append (union acc_history) [] k))
      (e_fn-Awaits [] (union acc_history) (map queue_item (filter _ elements))
        (items-Awaits _ elements))

-- Reports without prerequisites and lookups are always ready.
immediately_accumulable-IsReady :
    (done : List Bytes) (elements : List WorkReport)
    → All (IsReady done) (immediately_accumulable elements)
immediately_accumulable-IsReady done [] = tt
immediately_accumulable-IsReady done (wr ∷ elements) = elim (Bool-cases (is_immediate wr)) [
  | inr waits ↦ rw waits (immediately_accumulable-IsReady done elements)
  | inl free ↦
      rw free
        (ready wr.prerequisites wr.sr_lookup free, immediately_accumulable-IsReady done elements)
]
  where
    ready :
        (ps ls : List Bytes)
        → (is_empty ps && is_empty ls) ≡ true
        → (k : Bytes) → (has ps k || has ls k) ≡ true
        → has done k ≡ true
    ready [] [] e k d = cc
    ready (x ∷ ps) ls e k d = cc
    ready [] (x ∷ ls) e k d = cc

All-flat :
    (done : List Bytes) (qs : List (List AccumulationQueueItem))
    → All (λ q. All (Awaits done) q) qs
    → All (Awaits done) (flat qs)
All-flat done [] h = tt
All-flat done (q ∷ qs) h = All-append (Awaits done) q (flat qs) h.0 (All-flat done qs h.1)

module _ (c : Constants) where
  candidates-Awaits :
      (done : List Bytes) (elements : List WorkReport) (acc_history : List (List Bytes))
      (acc_queue : List (List AccumulationQueueItem)) (p_tau : ℕ)
      → Includes (union acc_history) done
      → All (λ q. All (Awaits done) q) acc_queue
      → All
          (Awaits (extract_work_package_hashes (immediately_accumulable elements) ++ done))
          (candidates c elements acc_history acc_queue p_tau)
  unfolding candidates
  candidates-Awaits done elements acc_history acc_queue p_tau inc queued =
      let m = slot_phase c p_tau in
      e_fn-Awaits done (extract_work_package_hashes (immediately_accumulable elements)) _ (
        All-append (Awaits done) (flat (drop m acc_queue)) _
          (All-flat done (drop m acc_queue)
            (All-drop (λ q. All (Awaits done) q) m acc_queue queued))
          (All-append (Awaits done) (flat (take m acc_queue)) _
            (All-flat done (take m acc_queue)
              (All-take (λ q. All (Awaits done) q) m acc_queue queued))
            (queueable-Awaits done elements acc_history inc)))

  -- The reports that a block accumulates stand in an order in which every package that a report
  -- depends on has been accumulated before, or is that of a report further ahead.
  pub accumulatable_reports-Ordered :
      (done : List Bytes) (elements : List WorkReport) (acc_history : List (List Bytes))
      (acc_queue : List (List AccumulationQueueItem)) (p_tau : ℕ) (ws : List WorkReport)
      → Includes (union acc_history) done
      → All (λ q. All (Awaits done) q) acc_queue
      → accumulatable_reports c elements acc_history acc_queue p_tau ≡ some ws
      → Ordered done ws
  unfolding accumulatable_reports extract_work_package_hashes
  accumulatable_reports-Ordered done elements acc_history acc_queue p_tau ws inc queued e =
      let r = candidates c elements acc_history acc_queue p_tau in
      let now = immediately_accumulable elements in
      let parts =
        >>=-eq-some (compute_accumulation_priority (suc (length r)) r)
          (λ accprio. some (now ++ accprio)) e in
      subst (Ordered done) (some_eq parts.2) (
        Ordered-append done now parts.0 (immediately_accumulable-IsReady done elements) (
          Ordered-mono (extract_work_package_hashes now ++ done) (package_hashes now ++ done)
            parts.0 (known done now)
            (compute_accumulation_priority-Ordered (suc (length r))
              (extract_work_package_hashes now ++ done) r parts.0
              (candidates-Awaits done elements acc_history acc_queue p_tau inc queued) parts.1)))
