-- ===== src/Core/Accumulation/Queue.antt =====
-- new-work-reports-impl.ts, accumulation-queue-item.ts, accumulation-history-impl.ts and
-- accumulation-queue-impl.ts of packages/jam-core/src/impls.
use tsjam.Prelude.{
  ℕ, zero, suc, ◌+◌, ◌-◌, ◌%◌, Bool, true, false, not, ◌&&◌, ◌||◌, Option, none, some, ◌>>=◌, List,
  [], ◌∷◌, ◌++◌, map, length, get_or, set, if◌then◌else◌, filter, take, drop, ltb, ◌==◌,
}
use tsjam.Core.Bytes.{Bytes}
use tsjam.Core.Constants.{Constants}
use tsjam.Core.IdentitySet.{has, from_values, add_all, delete_all}
use tsjam.Core.Slot.{slot_phase}
use tsjam.Core.Reports.{WorkReport}

pub record AccumulationQueueItem : Type 0 where
  pub work_report : WorkReport
  pub dependencies : List Bytes

abbrev pub is_empty {ℓ} : {A : Type ℓ} → List A → Bool
is_empty [] = true
is_empty (x ∷ xs) = false

abbrev pub flat {ℓ} : {A : Type ℓ} → List (List A) → List A
flat [] = []
flat (x ∷ xs) = x ++ flat xs

-- `WorkReportImpl.extractWorkPackageHashes`, `P()`
abbrev pub package_hashes : List WorkReport → List Bytes
package_hashes r = map (λ wr. wr.package_hash) r

unfoldable pub extract_work_package_hashes : List WorkReport → List Bytes
extract_work_package_hashes r = from_values (package_hashes r)

-- `E_Fn`
unfoldable pub e_fn : List AccumulationQueueItem → List Bytes → List AccumulationQueueItem
e_fn [] x = []
e_fn (item ∷ r) x =
    let rest = e_fn r x in
    if has x item.work_report.package_hash
    then rest
    else record {
      work_report = item.work_report;
      dependencies = delete_all (from_values item.dependencies) x;
    }
      ∷ rest

-- `g` of `computeAccumulationPriority`
abbrev pub without_dependencies : List AccumulationQueueItem → List WorkReport
without_dependencies r =
    map (λ item. item.work_report) (filter (λ item. is_empty item.dependencies) r)

-- `computeAccumulationPriority`: none where the rounds are used up, which never happens with one for
-- every item and one more.
unfoldable pub compute_accumulation_priority :
    ℕ → List AccumulationQueueItem → Option (List WorkReport)
compute_accumulation_priority zero r = none
compute_accumulation_priority (suc rounds) r =
    let g = without_dependencies r in
    let rest = compute_accumulation_priority rounds (e_fn r (extract_work_package_hashes g)) in
    if length g == 0 then some [] else rest >>= (λ ws. some (g ++ ws))

-- `AccumulationHistoryImpl.union`
unfoldable pub union : List (List Bytes) → List Bytes
union elements = from_values (flat elements)

-- `immediatelyAccumulable`
abbrev pub is_immediate : WorkReport → Bool
is_immediate r = is_empty r.prerequisites && is_empty r.sr_lookup

abbrev pub immediately_accumulable : List WorkReport → List WorkReport
immediately_accumulable elements = filter is_immediate elements

abbrev pub queue_item : WorkReport → AccumulationQueueItem
queue_item wr = record {
  work_report = wr;
  dependencies = add_all (from_values wr.sr_lookup) wr.prerequisites;
}

-- `queueable`; the test is `prerequisites.length > 0 || srLookup.size > 0`.
unfoldable pub queueable : List WorkReport → List (List Bytes) → List AccumulationQueueItem
queueable elements acc_history =
    e_fn
      (map queue_item
        (filter (λ wr. not (is_empty wr.prerequisites) || not (is_empty wr.sr_lookup)) elements))
      (union acc_history)

module _ (c : Constants) where
  -- The items that `accumulatableReports` puts in order.
  unfoldable pub candidates :
      List WorkReport
      → List (List Bytes)
      → List (List AccumulationQueueItem)
      → ℕ
      → List AccumulationQueueItem
  candidates elements acc_history acc_queue p_tau =
      let m = slot_phase c p_tau in
      e_fn (flat (drop m acc_queue) ++ (flat (take m acc_queue) ++ queueable elements acc_history))
        (extract_work_package_hashes (immediately_accumulable elements))

  -- `accumulatableReports`, with enough rounds.
  unfoldable pub accumulatable_reports :
      List WorkReport
      → List (List Bytes)
      → List (List AccumulationQueueItem)
      → ℕ
      → Option (List WorkReport)
  accumulatable_reports elements acc_history acc_queue p_tau =
      let r = candidates elements acc_history acc_queue p_tau in
      compute_accumulation_priority (suc (length r)) r
      >>= (λ accprio. some (immediately_accumulable elements ++ accprio))

  -- The loop of `AccumulationHistoryImpl.toPosterior` that moves the elements, and the new last one.
  abbrev pub shift : List (List Bytes) → List Bytes → List (List Bytes)
  shift elements last = drop 1 elements ++ (last ∷ [])

  -- `AccumulationHistoryImpl.toPosterior`
  unfoldable pub next_history : List (List Bytes) → List WorkReport → ℕ → List (List Bytes)
  next_history elements r_star n_accumulated_work =
      shift elements (extract_work_package_hashes (take n_accumulated_work r_star))

  -- One round of `AccumulationQueueImpl.toPosterior`: what it puts at its index.
  abbrev pub queue_entry :
      ℕ
      → ℕ
      → List AccumulationQueueItem
      → List Bytes
      → ℕ
      → List AccumulationQueueItem
      → List AccumulationQueueItem
  queue_entry tau p_tau r_q newest i old =
      if i == 0 then e_fn r_q newest else if ltb (i + tau) p_tau then [] else e_fn old newest

  -- Its loop, from `i` on.
  unfoldable pub queue_loop :
      ℕ
      → ℕ
      → ℕ
      → ℕ
      → List AccumulationQueueItem
      → List Bytes
      → List (List AccumulationQueueItem)
      → List (List AccumulationQueueItem)
      → List (List AccumulationQueueItem)
  queue_loop zero i tau p_tau r_q newest elements to_ret = to_ret
  queue_loop (suc rounds) i tau p_tau r_q newest elements to_ret =
      let index = (slot_phase c p_tau + c.epoch_length - i) % c.epoch_length in
      queue_loop rounds (suc i) tau p_tau r_q newest elements
        (set to_ret index (queue_entry tau p_tau r_q newest i (get_or elements index [])))

  -- `AccumulationQueueImpl.toPosterior`; `newest` is the last element of the posterior history.
  unfoldable pub next_queue :
      ℕ
      → ℕ
      → List AccumulationQueueItem
      → List (List Bytes)
      → List (List AccumulationQueueItem)
      → List (List AccumulationQueueItem)
  next_queue tau p_tau r_q p_history elements =
      queue_loop c.epoch_length 0 tau p_tau r_q (get_or p_history (c.epoch_length - 1) []) elements
        elements
