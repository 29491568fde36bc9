-- ===== src/Core/Accumulation/Kept.antt =====
-- What the history and the queue of a node keep true from block to block.
use tsjam.Prelude.{
  ℕ, zero, suc, ◌+◌, ◌-◌, ◌%◌, ◌<◌, ◌≡◌, refl, sym, arith, inl, inr, true, ◌||◌, List, [], ◌∷◌,
  ◌++◌, All, All-set, All-get_or, Bool-cases, length, length-append, length-drop, get_or, set, drop,
  take, ltb, ◌==◌, subst,
}
use tsjam.Core.Bytes.{Bytes}
use tsjam.Core.Constants.{Constants}
use tsjam.Core.IdentitySet.{has, has-from_values}
use tsjam.Core.Slot.{slot_phase}
use tsjam.Core.Reports.{WorkReport}
use tsjam.Core.Accumulation.Queue.{
  AccumulationQueueItem, flat, extract_work_package_hashes, union, queueable, shift, next_history,
  queue_entry, queue_loop, next_queue,
}
use tsjam.Core.Accumulation.Order.{
  Awaits, Includes, Awaits-mono, e_fn-Awaits, has-append, queueable-Awaits,
}

-- The invariant, for the list `done` of all packages that were ever accumulated: the history has a
-- set for every slot of an epoch and holds packages that are done, and the queued items wait for all
-- that their reports still need.
abbrev pub IsQueueState :
    Constants → List Bytes → List (List Bytes) → List (List AccumulationQueueItem) → Type 0
IsQueueState c done history queue =
    (length history ≡ c.epoch_length)
    × Includes (union history) done
    × All (λ q. All (Awaits done) q) queue

has-flat-drop :
    (history : List (List Bytes)) (h : Bytes)
    → has (flat (drop 1 history)) h ≡ true
    → has (flat history) h ≡ true
has-flat-drop [] h e = e
has-flat-drop (s ∷ history) h e = ground (arith, has-append s (flat history) h)

has-flat-snoc :
    (history : List (List Bytes)) (last h : Bytes) (s : List Bytes)
    → has (flat (history ++ (s ∷ []))) h ≡ has (flat history) h || has s h
has-flat-snoc [] last h s = ground (arith, has-append s [] h)
has-flat-snoc (t ∷ history) last h s = ground (
  arith,
  has-append t (flat (history ++ (s ∷ []))) h,
  has-append t (flat history) h,
  has-flat-snoc history last h s,
)

get_or-snoc :
    (history : List (List Bytes)) (s : List Bytes) (i : ℕ)
    → i ≡ length history
    → get_or (history ++ (s ∷ [])) i [] ≡ s
get_or-snoc [] s i e = rw e refl
get_or-snoc (t ∷ history) s i e = rw e (get_or-snoc history s (length history) refl)

module _ (c : Constants) where
  queue_loop-Awaits :
      (done newest : List Bytes) (rounds i tau p_tau : ℕ) (r_q : List AccumulationQueueItem)
      (elements to_ret : List (List AccumulationQueueItem))
      → All (Awaits done) r_q
      → All (λ q. All (Awaits done) q) elements
      → All (λ q. All (Awaits (newest ++ done)) q) to_ret
      → All
          (λ q. All (Awaits (newest ++ done)) q)
          (queue_loop c rounds i tau p_tau r_q newest elements to_ret)
  unfolding queue_loop
  queue_loop-Awaits done newest zero i tau p_tau r_q elements to_ret hr he ht = ht
  queue_loop-Awaits done newest (suc rounds) i tau p_tau r_q elements to_ret hr he ht =
      let index = (slot_phase c p_tau + c.epoch_length - i) % c.epoch_length in
      let old = get_or elements index [] in
      queue_loop-Awaits done newest rounds (suc i) tau p_tau r_q elements
        (set to_ret index (queue_entry c tau p_tau r_q newest i old)) hr he
        (All-set (λ q. All (Awaits (newest ++ done)) q) to_ret index _ ht
          (entry old (All-get_or (λ q. All (Awaits done) q) elements index [] he tt)))
    where
      entry :
          (old : List AccumulationQueueItem)
          → All (Awaits done) old
          → All (Awaits (newest ++ done)) (queue_entry c tau p_tau r_q newest i old)
      entry old h = elim (Bool-cases (i == 0)) [
        | inl first ↦ rw first (e_fn-Awaits done newest r_q hr)
        | inr other ↦ elim (Bool-cases (ltb (i + tau) p_tau)) [
          | inl skipped ↦ rw (other, skipped) tt
          | inr kept ↦ rw (other, kept) (e_fn-Awaits done newest old h)
        ]
      ]

  -- The history and the queue after a block keep the invariant, with the packages that the block
  -- accumulated among those that are done.
  pub next_queue-IsQueueState :
      (done : List Bytes) (history : List (List Bytes)) (queue : List (List AccumulationQueueItem))
      (elements r_star : List WorkReport) (n tau p_tau : ℕ)
      → 0 < c.epoch_length
      → IsQueueState c done history queue
      → IsQueueState c
          (extract_work_package_hashes (take n r_star) ++ done)
          (next_history c history r_star n)
          (next_queue c tau p_tau
            (queueable elements history)
            (next_history c history r_star n)
            queue)
  unfolding next_history next_queue union
  next_queue-IsQueueState done history queue elements r_star n tau p_tau some_slot h = (
    omega (arith, h.0, length-append (drop 1 history) (newest ∷ []), length-drop 1 history),
    (λ k e. ground (
      arith,
      has-from_values k (flat (drop 1 history ++ (newest ∷ []))),
      has-flat-snoc (drop 1 history) [] k newest,
      has-flat-drop history k,
      has-from_values k (flat history),
      h.1 k,
      has-append newest done k,
    )),
    subst
        (λ s.
          All (λ q. All (Awaits (newest ++ done)) q)
            (queue_loop c c.epoch_length 0 tau p_tau (queueable elements history) s queue queue))
        (sym last)
        (queue_loop-Awaits done newest c.epoch_length 0 tau p_tau (queueable elements history) queue
          queue (queueable-Awaits done elements history h.1) h.2 (grown queue h.2)),
  )
    where
      newest : List Bytes
      newest = extract_work_package_hashes (take n r_star)

      last : get_or (shift c history newest) (c.epoch_length - 1) [] ≡ newest
      last =
          get_or-snoc (drop 1 history) newest (c.epoch_length - 1)
            (omega (arith, h.0, length-drop 1 history))

      grown :
          (qs : List (List AccumulationQueueItem))
          → All (λ q. All (Awaits done) q) qs
          → All (λ q. All (Awaits (newest ++ done)) q) qs
      grown [] g = tt
      grown (q ∷ qs) g = (
        Awaits-mono done (newest ++ done) q (λ k e. ground (arith, has-append newest done k)) g.0,
        grown qs g.1,
      )
