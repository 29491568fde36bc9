-- ===== src/Core/Safrole/Sealing.antt =====
-- packages/jam-core/src/utils.ts, `outsideInSequencer`, and the series of seals of
-- packages/jam-core/src/impls/gamma-s-impl.ts. An array element that is missing makes the source go
-- on with `undefined`, and the model stop.
use tsjam.Prelude.{
  ℕ, zero, suc, ◌+◌, ◌-◌, ◌/◌, ◌%◌, Bool, true, false, ◌&&◌, Option, some, ◌>>=◌, List, [], ◌∷◌,
  ◌++◌, length, get_elem?, if◌then◌else◌, ◌==◌, leb,
}
use tsjam.Codec.Buffer.{BigintBuffer, subarray}
use tsjam.Codec.Ints.{e_sub_decode}
use tsjam.Core.Bytes.{Bytes}
use tsjam.Core.Constants.{Constants}
use tsjam.Core.Slot.{slot_phase, is_next_era, is_same_era}
use tsjam.Core.Validators.{Validators, ValidatorData}
use tsjam.Core.Safrole.Tickets.{Ticket}

-- `i < EPOCH_LENGTH / 2` holds in `(length + 1) / 2` rounds.
unfoldable pub sequencer_loop : {A : Type 0} → ℕ → ℕ → ℕ → List A → Option (List A)
sequencer_loop zero i length t = some []
sequencer_loop (suc rounds) i length t = do
  a ← get_elem? t i
  b ← get_elem? t (length - i - 1)
  rest ← sequencer_loop rounds (suc i) length t
  some (a ∷ b ∷ rest)

-- The series: tickets, or in fallback mode keys.
pub data GammaS : Type 0 where
  keys : List Bytes → GammaS
  tickets : List Ticket → GammaS

module _ (c : Constants) where
  unfoldable pub outside_in_sequencer : {A : Type 0} → List A → Option (List A)
  outside_in_sequencer t = sequencer_loop ((c.epoch_length + 1) / 2) 0 c.epoch_length t

-- `isFallback`
abbrev pub is_fallback : GammaS → Bool
is_fallback (keys ks) = true
is_fallback (tickets ts) = false

module _ (c : Constants) (buffer : BigintBuffer) (blake2b : Bytes → Bytes) where
  open buffer use {to_buffer_le}

  -- The loop of the fallback mode. The remainder by the length of no validators throws.
  unfoldable pub fallback_loop : ℕ → ℕ → List ValidatorData → Bytes → Option (List Bytes)
  fallback_loop zero i p_kappa p_eta_2 = some []
  fallback_loop (suc rounds) i p_kappa p_eta_2 =
      let h_4 = subarray (blake2b (p_eta_2 ++ to_buffer_le i 4)) 0 4 in
      let index = (e_sub_decode buffer 4 h_4).0 % length p_kappa in
      do
        v ← get_elem? p_kappa index
        rest ← fallback_loop rounds (suc i) p_kappa p_eta_2
        some (v.bander_snatch ∷ rest)

  -- The test of the first branch.
  abbrev pub enough_tickets : ℕ → ℕ → List Ticket → Bool
  enough_tickets slot p_tau gamma_a =
      is_next_era c p_tau slot
      && (length gamma_a == c.epoch_length)
      && leb c.lottery_max_slot (slot_phase c slot)

  -- `GammaSImpl.toPosterior`
  unfoldable pub next_series : ℕ → ℕ → List Ticket → GammaS → Validators c → Bytes → Option GammaS
  next_series slot p_tau gamma_a gamma_s p_kappa p_eta_2 =
      if enough_tickets slot p_tau gamma_a
      then outside_in_sequencer c gamma_a >>= (λ ts. some (tickets ts))
      else if is_same_era c p_tau slot
      then some gamma_s
      else fallback_loop c.epoch_length 0 p_kappa.elements p_eta_2 >>= (λ ks. some (keys ks))
