-- ===== src/Core/Entropy.antt =====
-- packages/jam-core/src/impls/jam-entropy-impl.ts: the entropy eta. The hash is a parameter.
use tsjam.Prelude.{ℕ, ◌++◌, if◌then◌else◌}
use tsjam.Core.Bytes.{Bytes}
use tsjam.Core.Constants.{Constants}
use tsjam.Core.Slot.{is_newer_era}

pub record JamEntropy : Type 0 where
  pub eta_0 : Bytes
  pub eta_1 : Bytes
  pub eta_2 : Bytes
  pub eta_3 : Bytes

module _ (c : Constants) where
  -- `rotate1_3`
  unfoldable pub rotate1_3 : JamEntropy → ℕ → ℕ → JamEntropy
  rotate1_3 eta slot p_tau =
      let newer = is_newer_era c p_tau slot in
      record {
        eta_0 = eta.eta_0;
        eta_1 = if newer then eta.eta_0 else eta.eta_1;
        eta_2 = if newer then eta.eta_1 else eta.eta_2;
        eta_3 = if newer then eta.eta_2 else eta.eta_3;
      }

-- `toPosterior`
unfoldable pub mix_in : (Bytes → Bytes) → JamEntropy → Bytes → JamEntropy
mix_in blake2b eta vrf_output_hash = record {
  eta_0 = blake2b (eta.eta_0 ++ vrf_output_hash);
  eta_1 = eta.eta_1;
  eta_2 = eta.eta_2;
  eta_3 = eta.eta_3;
}
