-- ===== src/Core/Chain/Reachable.antt =====
-- What holds in every state that a chain of blocks reaches.
use tsjam.Prelude.{
  ℕ, ◌<◌, ◌%◌, ◌≡◌, refl, sym, ap, ◌∙◌, arith, Bool, true, false, Option, none, some, some_eq,
  subst,
}
use tsjam.Prelude.Result.{Result, ok, err, >>-eq-ok, ok_eq}
use tsjam.Core.Bytes.{Bytes}
use tsjam.Core.Constants.{Constants}
use tsjam.Core.IdentitySet.{has}
use tsjam.Core.Slot.{epoch_index, check_p_tau_valid}
use tsjam.Core.Disputes.Types.{DisputesState, DisputeExtrinsic}
use tsjam.Core.Disputes.Verdicts.{check_verdicts, votes}
use tsjam.Core.Disputes.Accused.{check_extrinsic, is_zero}
use tsjam.Core.Disputes.State.{to_posterior, posterior_sets}
use tsjam.Core.Disputes.Safety.Disjoint.{IsDisjoint, posterior_sets-IsDisjoint, has-judged}
use tsjam.Core.Disputes.Safety.Once.{to_posterior-posterior_sets}
use tsjam.Core.Safrole.Tickets.{new_tickets}
use tsjam.Core.Safrole.Tickets
use tsjam.Core.Safrole.Accumulator.{IsGammaA, to_posterior-IsGammaA}
use tsjam.Core.Safrole.Sealing.{next_series}
use tsjam.Core.Safrole.Series.{IsSeries, next_series-IsSeries}
use tsjam.Core.Safrole.Epoch.{Chain}
use tsjam.Core.Chain.{
  State, NewBlock, Crypto, BlockError, return_on, series_or, next_gamma_z, next_chain, seal_block,
  apply, tau_error, disputes_error, posterior_error, tickets_error, accumulator_error,
}

return_on-eq-ok :
    {E A B : Type 0} (wrap : E → BlockError) (m : Result E A) (next : A → Result BlockError B)
    {b : B}
    → return_on wrap m next ≡ ok b
    → (a : A) × (m ≡ ok a) × (next a ≡ ok b)
return_on-eq-ok wrap (err e) next h = cc
return_on-eq-ok wrap (ok a) next h = (a, refl, h)

series_or-eq-ok :
    {A B : Type 0} (m : Option A) (next : A → Result BlockError B) {b : B}
    → series_or m next ≡ ok b
    → (a : A) × (m ≡ some a) × (next a ≡ ok b)
series_or-eq-ok none next h = cc
series_or-eq-ok (some a) next h = (a, refl, h)

-- The judgements are disjoint, the accumulator is sorted and within an epoch, and the series of seals
-- has one for every slot.
abbrev pub IsConsensus : (c : Constants) → State c → Type 0
IsConsensus c s = IsDisjoint s.disputes × IsGammaA c s.gamma_a × IsSeries c s.gamma_s

module _ (c : Constants) (crypto : Crypto) where
  -- The states that blocks lead to; the clock and the environment are those of each block.
  pub data Reachable : State c → State c → Type 0 where
    start : (s : State c) → Reachable s s
    block :
        (s t u : State c) (now : ℕ) (running_trace_tests : Bool) (b : NewBlock c)
        → Reachable s t
        → apply c crypto now running_trace_tests t b ≡ ok u
        → Reachable s u

module _ (c : Constants) (crypto : Crypto) (now : ℕ) (running_trace_tests : Bool) where
  open crypto use {buffer, blake2b, verify_signature, verify_vrf_proof, vrf_output}

  -- The verdicts of an extrinsic that passes have passed.
  verdicts_passed :
      (epoch : ℕ) (s : State c) (x : DisputeExtrinsic)
      → check_extrinsic c verify_signature epoch s.chain.keys.kappa s.chain.keys.lambda s.disputes x
        ≡ ok tt
      → check_verdicts c verify_signature epoch s.chain.keys.kappa s.chain.keys.lambda s.disputes
          x.verdicts
        ≡ ok tt
  unfolding check_extrinsic
  verdicts_passed epoch s x h = (>>-eq-ok _ _ h).0

  seal_block-kept :
      (s u : State c) (b : NewBlock c) (p_disputes : DisputesState) (next : Chain c)
      (p_gamma_z : Bytes)
      → c.epoch_length % 2 ≡ 0
      → 0 < c.number_of_validators
      → IsGammaA c s.gamma_a
      → IsSeries c s.gamma_s
      → seal_block c crypto now running_trace_tests s b p_disputes next p_gamma_z ≡ ok u
      → (u.disputes ≡ p_disputes) × IsGammaA c u.gamma_a × IsSeries c u.gamma_s
  unfolding seal_block
  seal_block-kept s u b p_disputes next p_gamma_z even some_validator sorted series h =
      let n =
        return_on-eq-ok tickets_error
          (new_tickets c verify_vrf_proof vrf_output b.slot p_gamma_z next.eta.eta_2 s.gamma_a
            b.tickets)
          _ h in
      let p_gamma_s =
        series_or-eq-ok
          (next_series c buffer blake2b s.chain.slot b.slot s.gamma_a s.gamma_s next.keys.kappa
            next.eta.eta_2)
          _ n.2 in
      let p_gamma_a =
        return_on-eq-ok accumulator_error (Tickets.to_posterior c s.chain.slot b.slot s.gamma_a n.0)
          _ p_gamma_s.2 in
      let series' =
        next_series-IsSeries c buffer blake2b s.chain.slot b.slot s.gamma_a s.gamma_s
          next.keys.kappa next.eta.eta_2 even some_validator series in
      let sorted' =
        to_posterior-IsGammaA c verify_vrf_proof vrf_output s.chain.slot b.slot p_gamma_z
          next.eta.eta_2 s.gamma_a n.0 p_gamma_a.0 b.tickets sorted n.1 p_gamma_a.1 in
      subst
        (λ (v : State c). (v.disputes ≡ p_disputes) × IsGammaA c v.gamma_a × IsSeries c v.gamma_s)
        (ok_eq _ refl p_gamma_a.2)
        (refl, sorted', subst (IsSeries c) (some_eq (sym series'.1 ∙ p_gamma_s.1)) series'.2)

  -- A block that is applied gives the disjoint and larger sets of the disputes, and keeps the rest.
  apply-kept :
      (s u : State c) (b : NewBlock c)
      → c.epoch_length % 2 ≡ 0
      → 0 < c.number_of_validators
      → IsConsensus c s
      → apply c crypto now running_trace_tests s b ≡ ok u
      → IsConsensus c u × (u.disputes ≡ posterior_sets c s.disputes b.disputes)
  unfolding apply
  apply-kept s u b even some_validator good h =
      let valid =
        return_on-eq-ok tau_error (check_p_tau_valid now running_trace_tests b.slot s.chain.slot) _
          h in
      let checked =
        return_on-eq-ok disputes_error
          (check_extrinsic c verify_signature (epoch_index c s.chain.slot) s.chain.keys.kappa
            s.chain.keys.lambda s.disputes b.disputes)
          _ valid.2 in
      let p_disputes =
        return_on-eq-ok posterior_error (to_posterior c s.disputes b.disputes) _ checked.2 in
      let sets =
        sym (to_posterior-posterior_sets c s.disputes p_disputes.0 b.disputes p_disputes.1) in
      let next = next_chain c crypto now running_trace_tests s b p_disputes.0 in
      let sealed =
        seal_block-kept s u b p_disputes.0 next
          (next_gamma_z c crypto now running_trace_tests s.chain.slot b.slot s.gamma_z
            next.keys.gamma_p)
          even some_validator good.1 good.2 p_disputes.2 in
      let apart =
        posterior_sets-IsDisjoint c verify_signature (epoch_index c s.chain.slot) s.chain.keys.kappa
          s.chain.keys.lambda s.disputes b.disputes good.0
          (verdicts_passed (epoch_index c s.chain.slot) s b.disputes checked.1) in
      ((subst IsDisjoint (sym (sealed.0 ∙ sets)) apart, sealed.1, sealed.2), sealed.0 ∙ sets)

module _ (c : Constants) (crypto : Crypto) where
  -- In every state that blocks reach, the judgements are disjoint, the accumulator is sorted and
  -- within an epoch, and the series has a seal for every slot, where that is so at the start.
  pub Reachable-IsConsensus :
      (s t : State c)
      → c.epoch_length % 2 ≡ 0
      → 0 < c.number_of_validators
      → Reachable c crypto s t
      → IsConsensus c s
      → IsConsensus c t
  Reachable-IsConsensus s t even some_validator (start _) good = good
  Reachable-IsConsensus s t even some_validator (block _ r _ now flag b before e) good =
      (apply-kept c crypto now flag r t b even some_validator
        (Reachable-IsConsensus s r even some_validator before good) e).0

  -- A report that was judged bad stays bad.
  stays_bad :
      (s t : State c) (r : Bytes)
      → c.epoch_length % 2 ≡ 0
      → 0 < c.number_of_validators
      → Reachable c crypto s t
      → IsConsensus c s
      → has s.disputes.bad r ≡ true
      → has t.disputes.bad r ≡ true
  unfolding posterior_sets
  stays_bad s t r even some_validator (start _) good h = h
  stays_bad s t r even some_validator (block _ m _ now flag b before e) good h =
      let sets =
        (apply-kept c crypto now flag m t b even some_validator
          (Reachable-IsConsensus s m even some_validator before good) e).1 in
      let old = stays_bad s m r even some_validator before good h in
      ap (λ (d : DisputesState). has d.bad r) sets
      ∙ has-judged m.disputes.bad is_zero (votes c b.disputes.verdicts) r
      ∙ ground (arith, old)

  -- A report that was judged bad is never judged good or wonky later.
  pub bad-Reachable :
      (s t : State c) (r : Bytes)
      → c.epoch_length % 2 ≡ 0
      → 0 < c.number_of_validators
      → Reachable c crypto s t
      → IsConsensus c s
      → has s.disputes.bad r ≡ true
      → (has t.disputes.bad r ≡ true)
        × (has t.disputes.good r ≡ false)
        × (has t.disputes.wonky r ≡ false)
  bad-Reachable s t r even some_validator path good h =
      let bad = stays_bad s t r even some_validator path good h in
      let apart = (Reachable-IsConsensus s t even some_validator path good).0 r in
      (bad, ground (arith, bad, apart.0), ground (arith, bad, apart.2))
