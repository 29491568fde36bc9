-- ===== src/Core/Rho.antt =====
-- packages/jam-core/src/impls/rho-impl.ts: the reports that wait on a core for their assurances.
pub mod Lifecycle
use tsjam.Prelude.{
  ℕ, zero, suc, ◌+◌, Bool, true, false, not, ◌&&◌, ◌||◌, Option, none, some, List, [], ◌∷◌, ◌++◌,
  map, if◌then◌else◌, leb, ◌==◌,
}
use tsjam.Core.Bytes.{Bytes}
use tsjam.Core.IdentitySet.{has, from_values}
use tsjam.Core.Reports.{WorkReport}

pub record RhoElement : Type 0 where
  pub work_report : WorkReport
  pub report_slot : ℕ

-- `GuaranteesExtrinsicImpl.elementForCore`, of the reports that are guaranteed.
abbrev pub element_for_core : List WorkReport → ℕ → Option WorkReport
element_for_core [] core = none
element_for_core (report ∷ reports) core =
    if report.core == core then some report else element_for_core reports core

module _ (report_hash : WorkReport → Bytes) where
  abbrev pub clear_judged : List Bytes → Option RhoElement → Option RhoElement
  clear_judged sets none = none
  clear_judged sets (some rho_c) =
      if has sets (report_hash rho_c.work_report) then none else some rho_c

  -- `toDagger`
  unfoldable pub to_dagger :
      List Bytes → List Bytes → List (Option RhoElement) → List (Option RhoElement)
  to_dagger bad wonky elements = map (clear_judged (from_values (bad ++ wonky))) elements

  -- What `toDoubleDagger` does on a core; `WORK_TIMEOUT` is 5.
  abbrev pub clear_available :
      List WorkReport → ℕ → Option RhoElement → Option RhoElement → Option RhoElement
  clear_available new_reports p_tau none rho_c = none
  clear_available new_reports p_tau (some dagger_c) none = some dagger_c
  clear_available new_reports p_tau (some dagger_c) (some rho_c) =
      let waiting =
        if has (from_values (map report_hash new_reports)) (report_hash rho_c.work_report)
        then none
        else some dagger_c in
      if leb (dagger_c.report_slot + 5) p_tau then none else waiting

  -- `toDoubleDagger`
  unfoldable pub to_double_dagger :
      List WorkReport
      → ℕ
      → List (Option RhoElement)
      → List (Option RhoElement)
      → List (Option RhoElement)
  to_double_dagger new_reports p_tau [] rho = []
  to_double_dagger new_reports p_tau (dagger_c ∷ dagger) [] = dagger_c ∷ dagger
  to_double_dagger new_reports p_tau (dagger_c ∷ dagger) (rho_c ∷ rho) =
      clear_available new_reports p_tau dagger_c rho_c
      ∷ to_double_dagger new_reports p_tau dagger rho

-- What `toPosterior` puts on a core.
abbrev pub newly_reported : Option WorkReport → ℕ → Option RhoElement → Option RhoElement
newly_reported none p_tau old = old
newly_reported (some report) p_tau old = some (record { work_report = report; report_slot = p_tau })

-- `toPosterior`, from a core on.
unfoldable pub posterior_loop :
    ℕ → List WorkReport → ℕ → List (Option RhoElement) → List (Option RhoElement)
posterior_loop core guaranteed p_tau [] = []
posterior_loop core guaranteed p_tau (old ∷ elements) =
    newly_reported (element_for_core guaranteed core) p_tau old
    ∷ posterior_loop (suc core) guaranteed p_tau elements

unfoldable pub to_posterior :
    List WorkReport → ℕ → List (Option RhoElement) → List (Option RhoElement)
to_posterior guaranteed p_tau elements = posterior_loop 0 guaranteed p_tau elements
