-- ===== src/Core/Validators.antt =====
-- packages/jam-core/src/impls/validator-data-impl.ts and validators-impl.ts: the sets of validators
-- (iota, gamma_p, kappa and lambda have this type). `SeqOfLength` of the source is a proof of the
-- length.
use tsjam.Prelude.{
  ℕ, ◌≡◌, ◌∙◌, List, map, length, length-map, get_or, replicate, length-replicate, if◌then◌else◌,
  leb, ◌%◌, ◌+◌, ◌*◌,
}
use tsjam.Prelude.Result.{Result, ok, err}
use tsjam.Core.Bytes.{Bytes}
use tsjam.Core.Constants.{Constants}
use tsjam.Core.IdentitySet.{has}

pub record ValidatorData : Type 0 where
  pub bander_snatch : Bytes
  pub ed25519 : Bytes
  pub bls_key : Bytes
  pub metadata : Bytes

-- `ValidatorDataImpl.newEmpty`
abbrev pub new_empty : ValidatorData
new_empty = record {
  bander_snatch = replicate 32 0;
  ed25519 = replicate 32 0;
  bls_key = replicate 144 0;
  metadata = replicate 128 0;
}

pub record Validators (c : Constants) : Type 0 where
  pub elements : List ValidatorData
  pub size : length elements ≡ c.number_of_validators

-- The one error of `at`.
pub data AtError : Type 0 where
  invalid_index : AtError

-- What `phi` puts in a validator's place.
abbrev pub nullify : List Bytes → ValidatorData → ValidatorData
nullify p_offenders v = if has p_offenders v.ed25519 then new_empty else v

module _ (c : Constants) where
  -- An index below the constant is in the set, by its size, so the default of `get_or` is never read.
  abbrev pub at : Validators c → ℕ → Result AtError ValidatorData
  at vs index =
      if leb c.number_of_validators index
      then err invalid_index
      else ok (get_or vs.elements index new_empty)

  -- `shardOf`
  abbrev pub shard_of : ℕ → ℕ → ℕ
  shard_of v core = (core * 2 + v) % c.number_of_validators

  unfoldable pub phi : Validators c → List Bytes → Validators c
  phi vs p_offenders = record {
    elements = map (nullify p_offenders) vs.elements;
    size = length-map (nullify p_offenders) vs.elements ∙ vs.size;
  }

  -- `newEmpty`
  abbrev pub all_empty : Validators c
  all_empty = record {
    elements = replicate c.number_of_validators new_empty;
    size = length-replicate c.number_of_validators new_empty;
  }

-- The Ed25519 keys of a set.
abbrev pub ed25519_keys : List ValidatorData → List Bytes
ed25519_keys vs = map (λ v. v.ed25519) vs
