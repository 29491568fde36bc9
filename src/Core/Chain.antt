-- ===== src/Core/Chain.antt =====
-- `JamStateImpl.applyBlock` of packages/jam-core/src/impls/jam-state-impl.ts, up to the posterior
-- Safrole state: the disputes, the validators, the tickets and the seals of a block, in the order in
-- which the source computes them, with its early returns. The ring commitment is a parameter, and
-- the staging set after the block, which the accumulation gives, is part of the block here.
pub mod Reachable
use tsjam.Prelude.{ℕ, Bool, true, false, Option, none, some, List, if◌then◌else◌, map}
use tsjam.Prelude.Result.{Result, ok, err}
use tsjam.Codec.Buffer.{BigintBuffer}
use tsjam.Core.Bytes.{Bytes}
use tsjam.Core.Constants.{Constants}
use tsjam.Core.Slot.{TauError, check_p_tau_valid, epoch_index, is_newer_era}
use tsjam.Core.Entropy.{JamEntropy}
use tsjam.Core.Validators.{Validators, ValidatorData}
use tsjam.Core.Disputes.Types.{
  DisputesState, DisputeExtrinsic, DisputesError, DisputesToPosteriorError,
}
use tsjam.Core.Disputes.Accused.{check_extrinsic}
use tsjam.Core.Disputes.State.{to_posterior}
use tsjam.Core.Safrole.Tickets.{Ticket, TicketProof, EtError, GammaAError, new_tickets}
use tsjam.Core.Safrole.Tickets
use tsjam.Core.Safrole.Sealing.{GammaS, next_series}
use tsjam.Core.Safrole.Epoch.{Chain, Block, EpochKeys, apply_block}

-- The errors of the steps; the last one is for what the model of the seals leaves undefined.
pub data BlockError : Type 0 where
  tau_error : TauError → BlockError
  disputes_error : DisputesError → BlockError
  posterior_error : DisputesToPosteriorError → BlockError
  tickets_error : EtError → BlockError
  accumulator_error : GammaAError → BlockError
  no_series : BlockError

-- An early return: the error of a step, in the error of the block.
abbrev pub return_on {ℓ} :
    {E A : Type 0} {B : Type ℓ}
    → (E → BlockError)
    → Result E A
    → (A → Result BlockError B)
    → Result BlockError B
return_on wrap (err e) next = err (wrap e)
return_on wrap (ok a) next = next a

abbrev pub series_or : {A B : Type 0} → Option A → (A → Result BlockError B) → Result BlockError B
series_or none next = err no_series
series_or (some a) next = next a

pub record State (c : Constants) : Type 0 where
  pub chain : Chain c
  pub gamma_z : Bytes
  pub gamma_s : GammaS
  pub gamma_a : List Ticket
  pub disputes : DisputesState

pub record NewBlock (c : Constants) : Type 0 where
  pub slot : ℕ
  pub vrf_output_hash : Bytes
  pub disputes : DisputeExtrinsic
  pub tickets : List TicketProof
  pub p_iota : Validators c

-- The functions of other packages: the hash, Ed25519, and Bandersnatch with its rings.
pub record Crypto : Type 0 where
  pub buffer : BigintBuffer
  pub blake2b : Bytes → Bytes
  pub verify_signature : Bytes → Bytes → Bytes → Bool
  pub verify_vrf_proof : Bytes → Bytes → Bytes → Bool
  pub vrf_output : Bytes → Bytes
  pub ring_root : List Bytes → Bytes

module _ (c : Constants) (crypto : Crypto) (now : ℕ) (running_trace_tests : Bool) where
  open crypto use {buffer, blake2b, verify_signature, verify_vrf_proof, vrf_output, ring_root}

  -- `GammaZImpl.toPosterior`
  abbrev pub next_gamma_z : ℕ → ℕ → Bytes → Validators c → Bytes
  next_gamma_z slot p_tau gamma_z p_gamma_p =
      if is_newer_era c p_tau slot
      then ring_root (map (λ v. v.bander_snatch) p_gamma_p.elements)
      else gamma_z

  -- The sets of validators and the entropy after the block.
  abbrev pub next_chain : State c → NewBlock c → DisputesState → Chain c
  next_chain s b p_disputes = apply_block c blake2b s.chain (record {
    p_tau = b.slot;
    vrf_output_hash = b.vrf_output_hash;
    p_offenders = p_disputes.offenders;
    p_iota = b.p_iota;
  })

  -- The tickets, the seals and the accumulator of the block.
  unfoldable pub seal_block :
      State c → NewBlock c → DisputesState → Chain c → Bytes → Result BlockError (State c)
  seal_block s b p_disputes next p_gamma_z =
      return_on tickets_error
        (new_tickets c verify_vrf_proof vrf_output b.slot p_gamma_z next.eta.eta_2 s.gamma_a
          b.tickets)
        (λ n.
          series_or
            (next_series c buffer blake2b s.chain.slot b.slot s.gamma_a s.gamma_s next.keys.kappa
              next.eta.eta_2)
            (λ p_gamma_s.
              return_on accumulator_error (Tickets.to_posterior c s.chain.slot b.slot s.gamma_a n)
                (λ p_gamma_a. ok (record {
                  chain = next;
                  gamma_z = p_gamma_z;
                  gamma_s = p_gamma_s;
                  gamma_a = p_gamma_a;
                  disputes = p_disputes;
                }))))

  -- `applyBlock`; the disputes are checked with the epoch and the validators of the state.
  unfoldable pub apply : State c → NewBlock c → Result BlockError (State c)
  apply s b =
      return_on tau_error (check_p_tau_valid now running_trace_tests b.slot s.chain.slot) (λ valid.
        return_on disputes_error
          (check_extrinsic c verify_signature (epoch_index c s.chain.slot) s.chain.keys.kappa
            s.chain.keys.lambda s.disputes b.disputes)
          (λ checked.
            return_on posterior_error (to_posterior c s.disputes b.disputes) (λ p_disputes.
              let next = next_chain s b p_disputes in
              seal_block s b p_disputes next
                (next_gamma_z s.chain.slot b.slot s.gamma_z next.keys.gamma_p))))
