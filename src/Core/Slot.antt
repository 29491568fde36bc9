-- ===== src/Core/Slot.antt =====
-- packages/jam-core/src/impls/slot-impl.ts: slots, epochs and phases, and the check of a block's slot.
use tsjam.Prelude.{ℕ, ◌+◌, ◌/◌, ◌%◌, ◌<◌, ◌≤◌, ◌≡◌, arith, Bool, not, ltb, leb, ◌==◌, ◌&&◌}
use tsjam.Prelude.Result.{Result, ok, ◌>>◌, check}
use tsjam.Core.Constants.{Constants}

-- `TauError`
pub data TauError : Type 0 where
  posterior_tau_less_or_equal_tau : TauError
  posterior_tau_in_future : TauError

module _ (c : Constants) where
  abbrev pub epoch_index : ℕ → ℕ
  epoch_index value = value / c.epoch_length

  abbrev pub slot_phase : ℕ → ℕ
  slot_phase value = value % c.epoch_length

  unfoldable pub is_same_era : ℕ → ℕ → Bool
  is_same_era value other = epoch_index value == epoch_index other

  unfoldable pub is_newer_era : ℕ → ℕ → Bool
  is_newer_era value other = ltb (epoch_index other) (epoch_index value)

  unfoldable pub is_next_era : ℕ → ℕ → Bool
  is_next_era value other = epoch_index value == epoch_index other + 1

-- `checkPTauValid`: `now` is the slot of the clock, `SlotImpl.posteriorTau()`, and `running_trace_tests`
-- the environment variable that lifts the second check.
unfoldable pub check_p_tau_valid : ℕ → Bool → ℕ → ℕ → Result TauError (Unit {0})
check_p_tau_valid now running_trace_tests value prev_tau =
    check (not (leb value prev_tau)) posterior_tau_less_or_equal_tau
    >> check (not (ltb now value && not running_trace_tests)) posterior_tau_in_future

module _ (c : Constants) where
  -- A slot that passed the check is after the one before it, so its epoch is the same or a newer one.
  pub check_p_tau_valid-era :
      (now value prev_tau : ℕ) (running_trace_tests : Bool)
      → 0 < c.epoch_length
      → check_p_tau_valid now running_trace_tests value prev_tau ≡ ok tt
      → is_same_era c value prev_tau ≡ not (is_newer_era c value prev_tau)
  unfolding check_p_tau_valid is_same_era is_newer_era
  check_p_tau_valid-era now value prev_tau running_trace_tests e h =
      let l : prev_tau < value = ground arith in
      let m : prev_tau / c.epoch_length ≤ value / c.epoch_length = grind arith in ground arith
