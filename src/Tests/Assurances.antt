-- ===== src/Tests/Assurances.antt =====
-- Five of six validators assure the report of the first core.
use tsjam.Prelude.{
  ℕ, ◌≡◌, refl, Bool, true, false, Option, none, some, List, [], ◌∷◌, map, All, every,
}
use tsjam.Prelude.Result.{ok}
use tsjam.Core.Bytes.{Bytes, bytes_eq}
use tsjam.Core.Constants.{tiny}
use tsjam.Core.Validators.{all_empty}
use tsjam.Core.Disputes.Verdicts.{increasing}
use tsjam.Core.Reports.{WorkReport}
use tsjam.Core.Rho.{RhoElement}
use tsjam.Core.Assurances.{
  Assurance, is_signature_valid, check_validity, newly_available_reports, is_valid, only_pending,
  available_loop, n_positive_votes,
}
use tsjam.Core.Assurances.Available.{IsAssured, newly_available_reports-IsAssured}

abbrev by_validator : ℕ → Assurance
by_validator i = record {
  anchor_hash = 9 ∷ [];
  bitstring = true ∷ false ∷ [];
  validator_index = i;
  signature = [];
}

abbrev by_five : List Assurance
by_five = map by_validator (0 ∷ 1 ∷ 2 ∷ 3 ∷ 5 ∷ [])

abbrev pending : WorkReport
pending = record {
  core = 0;
  package_hash = 7 ∷ [];
  authorizer_hash = [];
  prerequisites = [];
  sr_lookup = [];
}

abbrev on_first_core : List (Option RhoElement)
on_first_core = some (record { work_report = pending; report_slot = 3 }) ∷ none ∷ []

abbrev any_signature : Bytes → Bytes → Bytes → Bool
any_signature s k m = true

abbrev same_bytes : Bytes → Bytes
same_bytes x = x

by_five-checked :
    check_validity tiny same_bytes any_signature (9 ∷ []) (all_empty tiny) on_first_core by_five
    ≡ ok tt
unfolding check_validity is_valid bytes_eq only_pending is_signature_valid
by_five-checked = refl

by_five-available : newly_available_reports tiny by_five on_first_core ≡ some (pending ∷ [])
unfolding newly_available_reports available_loop n_positive_votes
by_five-available = refl

newly_available_reports-IsAssured_example :
    (rs : List WorkReport) × (newly_available_reports tiny by_five on_first_core ≡ some rs)
    × All (IsAssured 6 by_five on_first_core) rs
    × (increasing (map (λ a. a.validator_index) by_five) ≡ true)
    × (every (is_signature_valid tiny same_bytes any_signature (all_empty tiny) (9 ∷ [])) by_five
        ≡ true)
newly_available_reports-IsAssured_example =
    newly_available_reports-IsAssured tiny same_bytes any_signature (9 ∷ []) (all_empty tiny)
      on_first_core by_five by_five-checked
