-- ===== src/Tests/Chain.antt =====
-- Two blocks on a small chain: one with a dispute, and one with nothing.
use tsjam.Core.Bytes.{bytes_lt, bytes_eq}
use tsjam.Core.Disputes.Verdicts.{
  check_verdicts, ascending, check_each, check_verdict, is_signature_valid, votes_of,
}
use tsjam.Core.Disputes.Accused.{check_extrinsic, check_culprits, accusable}
use tsjam.Core.Slot.{check_p_tau_valid}
use tsjam.Prelude.{ℕ, ◌≡◌, refl, true, false, [], arith}
use tsjam.Prelude.Result.{ok}
use tsjam.Core.Constants.{tiny}
use tsjam.Core.IdentitySet.{has, delete_all, from_values, add}
use tsjam.Core.Bytes.{bytes_eq, bytes_lt}
use tsjam.Core.Slot.{check_p_tau_valid, is_next_era, is_same_era, is_newer_era}
use tsjam.Core.Disputes.Types.{DisputeExtrinsic, DisputesState, new_empty}
use tsjam.Core.Disputes.Verdicts.{
  ascending, check_verdicts, check_each, check_verdict, is_signature_valid, votes_of,
}
use tsjam.Core.Disputes.Accused.{check_extrinsic, check_culprits, check_faults, accusable}
use tsjam.Core.Disputes.State.{to_posterior, posterior_sets, check_all_faults}
use tsjam.Core.Safrole.Tickets.{new_tickets, accumulated, sort}
use tsjam.Core.Safrole.Tickets
use tsjam.Core.Safrole.Sealing.{keys, next_series}
use tsjam.Core.Safrole.Epoch.{apply_block}
use tsjam.Core.Chain.{State, NewBlock, Crypto, seal_block, apply}
use tsjam.Core.Chain.Reachable.{
  IsConsensus, Reachable, start, block, Reachable-IsConsensus, bad-Reachable,
}
use tsjam.Tests.Buffer.{le_buffer}
use tsjam.Tests.Disputes.{hash_of, six_validators, accept, dispute, p_state}
use tsjam.Tests.Safrole.{first_bytes, output, twelve_keys}

abbrev crypto : Crypto
crypto = record {
  buffer = le_buffer;
  blake2b = first_bytes;
  verify_signature = accept;
  verify_vrf_proof = accept;
  vrf_output = output;
  ring_root = λ ks. [];
}

abbrev first_state : State tiny
first_state = record {
  chain = record {
    slot = 37;
    keys = record {
      iota = six_validators;
      gamma_p = six_validators;
      kappa = six_validators;
      lambda = six_validators;
    };
    eta = record { eta_0 = hash_of 0; eta_1 = hash_of 1; eta_2 = hash_of 2; eta_3 = hash_of 3 };
  };
  gamma_z = [];
  gamma_s = keys twelve_keys;
  gamma_a = [];
  disputes = new_empty;
}

abbrev block_with : ℕ → DisputeExtrinsic → NewBlock tiny
block_with p_tau x = record {
  slot = p_tau;
  vrf_output_hash = hash_of 9;
  disputes = x;
  tickets = [];
  p_iota = six_validators;
}

abbrev quiet : DisputeExtrinsic
quiet = record { verdicts = []; culprits = []; faults = [] }

-- The state after a block of the same epoch without tickets.
abbrev after : State tiny → ℕ → DisputesState → State tiny
after s p_tau p_disputes = record {
  chain = apply_block tiny first_bytes s.chain (record {
    p_tau = p_tau;
    vrf_output_hash = hash_of 9;
    p_offenders = p_disputes.offenders;
    p_iota = six_validators;
  });
  gamma_z = [];
  gamma_s = keys twelve_keys;
  gamma_a = [];
  disputes = p_disputes;
}

abbrev disputed : State tiny
disputed = after first_state 38 p_state

abbrev later : State tiny
later = after disputed 39 p_state

dispute_applied : apply tiny crypto 100 false first_state (block_with 38 dispute) ≡ ok disputed
unfolding apply check_p_tau_valid check_extrinsic check_verdicts ascending bytes_lt check_each
    check_verdict is_signature_valid check_culprits accusable delete_all from_values add bytes_eq
    votes_of check_faults to_posterior posterior_sets check_all_faults seal_block new_tickets
    next_series is_next_era is_same_era Tickets.to_posterior accumulated sort is_newer_era
    apply_block
dispute_applied = refl

quiet_applied : apply tiny crypto 100 false disputed (block_with 39 quiet) ≡ ok later
unfolding apply check_p_tau_valid check_extrinsic check_verdicts ascending bytes_lt check_each
    check_verdict is_signature_valid check_culprits accusable delete_all from_values add bytes_eq
    votes_of check_faults to_posterior posterior_sets check_all_faults seal_block new_tickets
    next_series is_next_era is_same_era Tickets.to_posterior accumulated sort is_newer_era
    apply_block
quiet_applied = refl

path : Reachable tiny crypto first_state disputed
path =
    block first_state first_state disputed 100 false (block_with 38 dispute) (start first_state)
      dispute_applied

first_good : IsConsensus tiny first_state
first_good = ((λ r. (refl, refl, refl)), (tt, omega arith), refl)

Reachable-IsConsensus_example : IsConsensus tiny disputed
Reachable-IsConsensus_example =
    Reachable-IsConsensus tiny crypto first_state disputed refl (omega arith) path first_good

disputed_good : IsConsensus tiny disputed
disputed_good =
    Reachable-IsConsensus tiny crypto first_state disputed refl (omega arith) path first_good

seventh : has disputed.disputes.bad (hash_of 7) ≡ true
unfolding bytes_eq
seventh = refl

bad-Reachable_example :
    (has later.disputes.bad (hash_of 7) ≡ true)
    × (has later.disputes.good (hash_of 7) ≡ false)
    × (has later.disputes.wonky (hash_of 7) ≡ false)
bad-Reachable_example =
    bad-Reachable tiny crypto disputed later (hash_of 7) refl (omega arith)
      (block disputed disputed later 100 false (block_with 39 quiet) (start disputed) quiet_applied)
      disputed_good seventh
