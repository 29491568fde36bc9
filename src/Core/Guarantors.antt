-- ===== src/Core/Guarantors.antt =====
-- packages/jam-core/src/impls/guarantors-assignment-impl.ts: which core each validator guarantees.
pub mod ThreePerCore
pub mod Assigned
use tsjam.Prelude.{
  ℕ, zero, suc, ◌+◌, ◌*◌, ◌/◌, ◌%◌, Bool, Option, none, some, ◌>>=◌, ◌>>◌, assert, List, [], ◌∷◌,
  map, length, ◌==◌, if◌then◌else◌,
}
use tsjam.Prelude.Int.{ℤ, pos, negsuc, ◌+ℤ◌, ◌-ℤ◌, ◌%ℤ◌, eq_ℤ}
use tsjam.Codec.Buffer.{BigintBuffer}
use tsjam.Core.Bytes.{Bytes}
use tsjam.Core.Constants.{Constants}
use tsjam.Core.Validators.{Validators, phi, ed25519_keys}
use tsjam.Core.Slot.{epoch_index}
use tsjam.Core.Shuffle.{fisher_yates_h}

-- A core is a number that `%` may have made negative.
pub record GuarantorsAssignment : Type 0 where
  pub validators_assigned_core : List ℤ
  pub validators_ed25519_key : List Bytes

-- `Math.floor(a / b)`
abbrev pub floor_div : ℤ → ℕ → ℤ
floor_div (pos a) b = pos (a / b)
floor_div (negsuc a) b = negsuc (a / b)

-- The numbers from `start` on.
abbrev pub numbers : ℕ → ℕ → List ℕ
numbers start zero = []
numbers start (suc n) = start ∷ numbers (suc start) n

module _ (c : Constants) where
  -- The constructor, with its assertions.
  unfoldable pub new_assignment : List ℤ → List Bytes → Option GuarantorsAssignment
  new_assignment cores keys = do
    assert (length cores == c.number_of_validators)
    assert (length keys == c.number_of_validators)
    some (record { validators_assigned_core = cores; validators_ed25519_key = keys })

  -- `R(c, n)`
  abbrev pub rotate : List ℕ → ℤ → List ℤ
  rotate cores n = map (λ x. (pos x +ℤ n) %ℤ pos c.cores) cores

  -- The array that `P` shuffles.
  abbrev pub in_order : List ℕ
  in_order = map (λ i. c.cores * i / c.number_of_validators) (numbers 0 c.number_of_validators)

module _ (c : Constants) (buffer : BigintBuffer) (blake2b : Bytes → Bytes) where
  -- `P(e, t)`
  unfoldable pub permute : Bytes → ℤ → Option (List ℤ)
  permute e t = do
    shuffled ← fisher_yates_h buffer blake2b (in_order c) e
    some (rotate c shuffled (floor_div (t %ℤ pos c.epoch_length) c.validator_core_rotation))

  -- `M_fn`; `slot` is `p_tau + tauOffset`.
  unfoldable pub m_fn : Bytes → ℤ → Validators c → List Bytes → Option GuarantorsAssignment
  m_fn entropy slot validator_keys p_offenders = do
    cores ← permute entropy slot
    new_assignment c cores (ed25519_keys (phi c validator_keys p_offenders).elements)

  -- `GuarantorsAssignmentImpl.curRotation`
  unfoldable pub cur_rotation : Bytes → ℕ → Validators c → List Bytes → Option GuarantorsAssignment
  cur_rotation p_eta_2 p_tau p_kappa p_offenders = m_fn p_eta_2 (pos p_tau) p_kappa p_offenders

  -- `GuarantorsAssignmentImpl.prevRotation`, which is `M_STAR_fn`.
  unfoldable pub prev_rotation :
      Bytes → Bytes → ℕ → Validators c → Validators c → List Bytes → Option GuarantorsAssignment
  prev_rotation p_eta_2 p_eta_3 p_tau p_kappa p_lambda p_offenders =
      let slot = pos p_tau -ℤ pos c.validator_core_rotation in
      if eq_ℤ (floor_div slot c.epoch_length) (pos (epoch_index c p_tau))
      then m_fn p_eta_2 slot p_kappa p_offenders
      else m_fn p_eta_3 slot p_lambda p_offenders
