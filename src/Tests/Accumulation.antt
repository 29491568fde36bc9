-- ===== src/Tests/Accumulation.antt =====
-- The queue of reports and the reports on the cores, on concrete values.
use tsjam.Core.IdentitySet.{from_values, add, delete_all, delete}
use tsjam.Prelude.{
  ℕ, ◌≡◌, refl, Option, some, List, [], ◌∷◌, ◌++◌, replicate, get_elem?, All, All-replicate, arith,
}
use tsjam.Core.Bytes.{Bytes, bytes_eq}
use tsjam.Core.Constants.{tiny}
use tsjam.Core.Reports.{WorkReport}
use tsjam.Core.Accumulation.Queue.{
  AccumulationQueueItem, accumulatable_reports, candidates, immediately_accumulable,
  extract_work_package_hashes, next_history, next_queue, queueable, union,
  compute_accumulation_priority, e_fn,
}
use tsjam.Core.Accumulation.Order.{Ordered, Includes, Awaits, accumulatable_reports-Ordered}
use tsjam.Core.Accumulation.Progress.{NotLeftBehind, accumulatable_reports-NotLeftBehind}
use tsjam.Core.Accumulation.Kept.{IsQueueState, next_queue-IsQueueState}
use tsjam.Core.Rho.{RhoElement}
use tsjam.Core.Rho.Lifecycle.{after_block, IsAfterBlock, after_block_lem}
use tsjam.Tests.Disputes.{hash_of}

abbrev report : ℕ → List Bytes → WorkReport
report n prerequisites = record {
  core = 0;
  package_hash = hash_of n;
  authorizer_hash = [];
  prerequisites = prerequisites;
  sr_lookup = [];
}

-- A report that depends on the one behind it.
abbrev two_reports : List WorkReport
two_reports = report 2 (hash_of 1 ∷ []) ∷ report 1 [] ∷ []

abbrev empty_history : List (List Bytes)
empty_history = replicate 12 []

abbrev empty_queue : List (List AccumulationQueueItem)
empty_queue = replicate 12 []

abbrev by_need : List WorkReport
by_need = report 1 [] ∷ report 2 (hash_of 1 ∷ []) ∷ []

both_accumulated : accumulatable_reports tiny two_reports empty_history empty_queue 5 ≡ some by_need
unfolding accumulatable_reports compute_accumulation_priority candidates e_fn queueable union
    from_values extract_work_package_hashes add bytes_eq delete_all delete
both_accumulated = refl

nothing_done : Includes (union empty_history) []
unfolding union from_values
nothing_done h e = e

nothing_queued : All (λ q. All (Awaits []) q) empty_queue
nothing_queued = All-replicate (λ q. All (Awaits []) q) 12 [] tt

accumulatable_reports-Ordered_example : Ordered [] by_need
accumulatable_reports-Ordered_example =
    accumulatable_reports-Ordered tiny [] two_reports empty_history empty_queue 5 by_need
      nothing_done nothing_queued both_accumulated

accumulatable_reports-NotLeftBehind_example :
    (ws : List WorkReport) × (accumulatable_reports tiny two_reports empty_history empty_queue 5
      ≡ some (immediately_accumulable two_reports ++ ws))
    × All (NotLeftBehind ws) (candidates tiny two_reports empty_history empty_queue 5)
accumulatable_reports-NotLeftBehind_example =
    accumulatable_reports-NotLeftBehind tiny two_reports empty_history empty_queue 5

next_queue-IsQueueState_example :
    IsQueueState tiny
      (extract_work_package_hashes by_need ++ [])
      (next_history tiny empty_history by_need 2)
      (next_queue tiny 4 5
        (queueable two_reports empty_history)
        (next_history tiny empty_history by_need 2)
        empty_queue)
next_queue-IsQueueState_example =
    next_queue-IsQueueState tiny [] empty_history empty_queue two_reports by_need 2 4 5
      (omega arith) (refl, nothing_done, nothing_queued)

abbrev by_package : WorkReport → Bytes
by_package wr = wr.package_hash

abbrev on_cores : List (Option RhoElement)
on_cores =
    some (record { work_report = report 1 []; report_slot = 4 })
    ∷ some (record { work_report = report 2 []; report_slot = 4 })
    ∷ []

after_block_lem_example :
    (p_rho_c : Option RhoElement) × (get_elem?
        (after_block by_package [] (hash_of 2 ∷ []) [] (report 3 [] ∷ []) 7 on_cores)
        1
      ≡ some p_rho_c)
    × IsAfterBlock by_package []
        (hash_of 2 ∷ [])
        []
        (report 3 [] ∷ [])
        7
        1
        (some (record { work_report = report 2 []; report_slot = 4 }))
        p_rho_c
after_block_lem_example =
    after_block_lem by_package [] (hash_of 2 ∷ []) [] (report 3 [] ∷ []) 7 1 on_cores
      (some (record { work_report = report 2 []; report_slot = 4 })) refl
