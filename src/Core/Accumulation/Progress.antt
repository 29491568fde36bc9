-- ===== src/Core/Accumulation/Progress.antt =====
-- `computeAccumulationPriority` ends, and leaves no report behind that it could accumulate.
use tsjam.Prelude.{
  ℕ, zero, suc, ◌<◌, ◌≤◌, ◌≡◌, refl, ◌∙◌, arith, inl, inr, true, false, ◌||◌, some, List, [], ◌∷◌,
  ◌++◌, All, any, Bool-cases, length, ◌==◌, some_eq, >>=-eq-some, subst,
}
use tsjam.Core.Bytes.{Bytes, bytes_eq_refl}
use tsjam.Core.Constants.{Constants}
use tsjam.Core.IdentitySet.{has, delete_all, has-from_values, has-delete_all, from_values}
use tsjam.Core.Reports.{WorkReport}
use tsjam.Core.Accumulation.Queue.{
  AccumulationQueueItem, is_empty, package_hashes, extract_work_package_hashes, e_fn,
  without_dependencies, compute_accumulation_priority, immediately_accumulable, candidates,
  accumulatable_reports,
}

length-e_fn : (r : List AccumulationQueueItem) (x : List Bytes) → length (e_fn r x) ≤ length r
unfolding e_fn
length-e_fn [] x = omega arith
length-e_fn (item ∷ r) x = ground (arith, length-e_fn r x)

-- An item of a package that is done goes away.
length-e_fn_less :
    (r : List AccumulationQueueItem) (x : List Bytes)
    → any (λ item. has x item.work_report.package_hash) r ≡ true
    → length (e_fn r x) < length r
unfolding e_fn
length-e_fn_less [] x h = cc
length-e_fn_less (item ∷ r) x h = elim (Bool-cases (has x item.work_report.package_hash)) [
  | inl gone ↦ rw gone (omega (arith, length-e_fn r x))
  | inr stays ↦ rw stays (omega (arith, length-e_fn_less r x (ground arith)))
]

free_gone :
    (r : List AccumulationQueueItem) (x : List Bytes)
    → ((h : Bytes) → has (package_hashes (without_dependencies r)) h ≡ true → has x h ≡ true)
    → (length (without_dependencies r) == 0) ≡ false
    → any (λ item. has x item.work_report.package_hash) r ≡ true
free_gone [] x inc e = cc
free_gone (item ∷ r) x inc e = elim (Bool-cases (is_empty item.dependencies)) [
  | inl free ↦
      let here : has x item.work_report.package_hash ≡ true =
        inc item.work_report.package_hash
          (rw free (ground (arith, bytes_eq_refl item.work_report.package_hash))) in
      rw here refl
  | inr waits ↦
      let rest = free_gone r x (λ h m. inc h (rw waits m)) (rw waits at e) in ground (arith, rest)
]

-- With more rounds than items there is always a result.
pub compute_accumulation_priority-eq-some :
    (rounds : ℕ) (r : List AccumulationQueueItem)
    → length r < rounds
    → (ws : List WorkReport) × (compute_accumulation_priority rounds r ≡ some ws)
unfolding compute_accumulation_priority extract_work_package_hashes
compute_accumulation_priority-eq-some zero r h = absurd (omega arith)
compute_accumulation_priority-eq-some (suc rounds) r h =
    let g = without_dependencies r in
    let x = from_values (package_hashes g) in
    elim (Bool-cases (length g == 0)) [
      | inl none_free ↦ ([], rw none_free refl)
      | inr some_free ↦
          let less =
            length-e_fn_less r x
              (free_gone r x (λ k m. has-from_values k (package_hashes g) ∙ m) some_free) in
          let rest =
            compute_accumulation_priority-eq-some rounds (e_fn r x) (omega (arith, less)) in
          (g ++ rest.0, rw (some_free, rest.1) refl)
    ]

-- Where the reports of all its dependencies are among the results, so is that of the item.
abbrev pub NotLeftBehind : List WorkReport → AccumulationQueueItem → Type 0
NotLeftBehind ws item =
    ((h : Bytes) → has item.dependencies h ≡ true → has (package_hashes ws) h ≡ true)
    → has (package_hashes ws) item.work_report.package_hash ≡ true

has-package_hashes :
    (g us : List WorkReport) (h : Bytes)
    → has (package_hashes (g ++ us)) h ≡ has (package_hashes g) h || has (package_hashes us) h
has-package_hashes [] us h = refl
has-package_hashes (w ∷ g) us h = ground (arith, has-package_hashes g us h)

-- Where no item is free, each waits for something.
none_behind :
    (r : List AccumulationQueueItem)
    → (length (without_dependencies r) == 0) ≡ true
    → All (NotLeftBehind []) r
none_behind [] e = tt
none_behind (item ∷ r) e = elim (Bool-cases (is_empty item.dependencies)) [
  | inl free ↦ absurd (some_there (rw free at e))
  | inr waits ↦ (stuck item.dependencies waits, none_behind r (rw waits at e))
]
  where
    some_there : (suc (length (without_dependencies r)) == 0) ≡ true → ⊥
    some_there z = ground arith

    stuck :
        (ds : List Bytes)
        → is_empty ds ≡ false
        → ((h : Bytes) → has ds h ≡ true → has [] h ≡ true)
        → has [] item.work_report.package_hash ≡ true
    stuck [] w h = cc
    stuck (d ∷ ds) w h = absurd (cc (h d (ground (arith, bytes_eq_refl d))))

-- What holds after the free reports are taken out holds with them.
behind-append :
    (g us : List WorkReport) (r : List AccumulationQueueItem)
    → All (NotLeftBehind us) (e_fn r (from_values (package_hashes g)))
    → All (NotLeftBehind (g ++ us)) r
unfolding e_fn
behind-append g us [] h = tt
behind-append g us (item ∷ r) h = elim (Bool-cases (has x item.work_report.package_hash)) [
  | inl gone ↦ (
    (λ hyp. ground (
      arith,
      has-package_hashes g us item.work_report.package_hash,
      has-from_values item.work_report.package_hash (package_hashes g),
    )),
    behind-append g us r (rw gone at h),
  )
  | inr stays ↦
      let parts = rw stays at h in
      (
        (λ hyp.
            let done = parts.0 (λ k m. left_over hyp k m) in
            ground (arith, has-package_hashes g us item.work_report.package_hash)),
        behind-append g us r parts.1,
      )
]
  where
    x : List Bytes
    x = from_values (package_hashes g)

    left_over :
        ((k : Bytes) → has item.dependencies k ≡ true → has (package_hashes (g ++ us)) k ≡ true)
        → (k : Bytes) → has (delete_all (from_values item.dependencies) x) k ≡ true
        → has (package_hashes us) k ≡ true
    left_over hyp k m = ground (
      arith,
      hyp k,
      has-delete_all k (from_values item.dependencies) x,
      has-from_values k item.dependencies,
      has-from_values k (package_hashes g),
      has-package_hashes g us k,
    )

-- No item stays behind whose dependencies are all among the results.
pub compute_accumulation_priority-NotLeftBehind :
    (rounds : ℕ) (r : List AccumulationQueueItem) (ws : List WorkReport)
    → compute_accumulation_priority rounds r ≡ some ws
    → All (NotLeftBehind ws) r
unfolding compute_accumulation_priority extract_work_package_hashes
compute_accumulation_priority-NotLeftBehind zero r ws e = cc
compute_accumulation_priority-NotLeftBehind (suc rounds) r ws e =
    let g = without_dependencies r in
    let rest = compute_accumulation_priority rounds (e_fn r (from_values (package_hashes g))) in
    elim (Bool-cases (length g == 0)) [
      | inl none_free ↦
          subst (λ us. All (NotLeftBehind us) r) (some_eq (rw none_free at e))
            (none_behind r none_free)
      | inr some_free ↦
          let parts = >>=-eq-some rest (λ us. some (g ++ us)) (rw some_free at e) in
          subst (λ us. All (NotLeftBehind us) r) (some_eq parts.2)
            (behind-append g parts.0 r
              (compute_accumulation_priority-NotLeftBehind rounds _ parts.0 parts.1))
    ]

module _ (c : Constants) where
  -- The accumulatable reports of a block always exist, and every candidate is among them whose
  -- dependencies are packages that the block accumulates.
  pub accumulatable_reports-NotLeftBehind :
      (elements : List WorkReport) (acc_history : List (List Bytes))
      (acc_queue : List (List AccumulationQueueItem)) (p_tau : ℕ)
      → (ws : List WorkReport) × (accumulatable_reports c elements acc_history acc_queue p_tau
          ≡ some (immediately_accumulable elements ++ ws))
        × All (NotLeftBehind ws) (candidates c elements acc_history acc_queue p_tau)
  unfolding accumulatable_reports
  accumulatable_reports-NotLeftBehind elements acc_history acc_queue p_tau =
      let r = candidates c elements acc_history acc_queue p_tau in
      let all = compute_accumulation_priority-eq-some (suc (length r)) r (omega arith) in
      (
        all.0,
        rw all.1 refl,
        compute_accumulation_priority-NotLeftBehind (suc (length r)) r all.0 all.1,
      )
