-- ===== src/Core/Rho/Lifecycle.antt =====
-- What the three steps of a block do to the report of a core.
use tsjam.Prelude.{
  ℕ, zero, suc, ◌+◌, ◌≡◌, ◌≢◌, ◌⊎◌, ◌==◌, All, refl, ap, ◌∙◌, arith, inl, inr, Bool, true, ◌||◌,
  Option, none, some, List, [], ◌∷◌, ◌++◌, map, get_elem?, if◌then◌else◌, leb, Bool-cases,
  any-append, some_eq,
}
use tsjam.Core.Bytes.{Bytes, bytes_eq}
use tsjam.Core.IdentitySet.{has, from_values, has-from_values}
use tsjam.Core.Reports.{WorkReport}
use tsjam.Core.Rho.{
  RhoElement, element_for_core, clear_judged, to_dagger, clear_available, to_double_dagger,
  newly_reported, posterior_loop, to_posterior,
}

-- `elementForCore` finds the first report of the core.
element_for_core-first :
    (reports : List WorkReport) (core : ℕ)
    → ((before after : List WorkReport) × (report : WorkReport) × (reports
          ≡ before ++ (report ∷ after))
        × (report.core ≡ core)
        × All (λ (w : WorkReport). w.core ≢ core) before
        × (element_for_core reports core ≡ some report))
      ⊎ (All (λ (w : WorkReport). w.core ≢ core) reports × (element_for_core reports core ≡ none))
element_for_core-first [] core = inr (tt, refl)
element_for_core-first (w ∷ ws) core = elim (Bool-cases (w.core == core)) [
  | inl here ↦ inl ([], ws, w, refl, ground arith, tt, rw here refl)
  | inr elsewhere ↦
      let other : w.core ≢ core = λ same. ground (arith, same) in
      elim (element_for_core-first ws core) [
        | inl (before, after, report, split, here, others, e) ↦ inl (
          w ∷ before,
          after,
          report,
          ap (λ us. w ∷ us) split,
          here,
          (other, others),
          rw elsewhere e,
        )
        | inr (others, e) ↦ inr ((other, others), rw elsewhere e)
      ]
]

module _ (report_hash : WorkReport → Bytes) where
  -- The three steps in the order of a block.
  abbrev pub after_block :
      List Bytes
      → List Bytes
      → List WorkReport
      → List WorkReport
      → ℕ
      → List (Option RhoElement)
      → List (Option RhoElement)
  after_block bad wonky new_reports guaranteed p_tau rho =
      to_posterior guaranteed p_tau
        (to_double_dagger report_hash new_reports p_tau (to_dagger report_hash bad wonky rho) rho)

  -- A report leaves its core: it was judged bad or wonky, it has become available, or its time is up.
  abbrev pub leaves : List Bytes → List Bytes → List WorkReport → ℕ → RhoElement → Bool
  leaves bad wonky new_reports p_tau e =
      has bad (report_hash e.work_report)
      || has wonky (report_hash e.work_report)
      || has (map report_hash new_reports) (report_hash e.work_report)
      || leb (e.report_slot + 5) p_tau

  abbrev pub stays :
      List Bytes → List Bytes → List WorkReport → ℕ → Option RhoElement → Option RhoElement
  stays bad wonky new_reports p_tau none = none
  stays bad wonky new_reports p_tau (some e) =
      if leaves bad wonky new_reports p_tau e then none else some e

  one_core :
      (bad wonky : List Bytes) (new_reports : List WorkReport) (p_tau : ℕ)
      (rho_c : Option RhoElement)
      → clear_available report_hash new_reports p_tau
          (clear_judged report_hash (from_values (bad ++ wonky)) rho_c)
          rho_c
        ≡ stays bad wonky new_reports p_tau rho_c
  one_core bad wonky new_reports p_tau none = refl
  one_core bad wonky new_reports p_tau (some e) =
      let h = report_hash e.work_report in
      let sets = has-from_values h (bad ++ wonky) ∙ any-append (λ x. bytes_eq x h) bad wonky in
      elim (Bool-cases (has (from_values (bad ++ wonky)) h)) [
        | inl judged ↦
            let gone : leaves bad wonky new_reports p_tau e ≡ true = ground (arith, sets) in
            rw (judged, gone) refl
        | inr free ↦ rw free (ground (arith, sets, has-from_values h (map report_hash new_reports)))
      ]

  module _ (bad wonky : List Bytes) (new_reports guaranteed : List WorkReport) (p_tau : ℕ) where
    -- What a core has after the block. Either a report for the core is guaranteed, and the core has
    -- the first such report with the block's slot; or none is, and the core has what stays of its own.
    abbrev pub IsAfterBlock : ℕ → Option RhoElement → Option RhoElement → Type 0
    IsAfterBlock core rho_c p_rho_c =
        ((before after : List WorkReport) × (report : WorkReport) × (guaranteed
            ≡ before ++ (report ∷ after))
          × (report.core ≡ core)
          × All (λ (w : WorkReport). w.core ≢ core) before
          × (p_rho_c ≡ some (record { work_report = report; report_slot = p_tau })))
        ⊎ (All (λ (w : WorkReport). w.core ≢ core) guaranteed
            × (p_rho_c ≡ stays bad wonky new_reports p_tau rho_c))

    newly_reported-IsAfterBlock :
        (core : ℕ) (rho_c : Option RhoElement)
        → IsAfterBlock core rho_c (
            newly_reported
              (element_for_core guaranteed core)
              p_tau
              (stays bad wonky new_reports p_tau rho_c))
    newly_reported-IsAfterBlock core rho_c = elim (element_for_core-first guaranteed core) [
      | inl (before, after, report, split, here, others, e) ↦
          inl (before, after, report, split, here, others, rw e refl)
      | inr (others, e) ↦ inr (others, rw e refl)
    ]

    from_core :
        (start core : ℕ) (rho : List (Option RhoElement)) (rho_c : Option RhoElement)
        → get_elem? rho core ≡ some rho_c
        → get_elem?
            (posterior_loop start guaranteed p_tau (
              to_double_dagger report_hash new_reports p_tau
                (to_dagger report_hash bad wonky rho)
                rho))
            core
          ≡ some (
              newly_reported
                (element_for_core guaranteed (start + core))
                p_tau
                (stays bad wonky new_reports p_tau rho_c))
    unfolding posterior_loop to_double_dagger to_dagger
    from_core start core [] rho_c e = cc
    from_core start zero (r ∷ rho) rho_c e =
        let here : start + 0 ≡ start = omega arith in
        rw here (
          ap (λ o. some (newly_reported (element_for_core guaranteed start) p_tau o))
            (one_core bad wonky new_reports p_tau r
              ∙ ap (stays bad wonky new_reports p_tau) (some_eq e)))
    from_core start (suc core) (r ∷ rho) rho_c e =
        let next : start + suc core ≡ suc start + core = omega arith in
        rw next (from_core (suc start) core rho rho_c e)

    -- After a block, a core has the first report that the block guarantees on it, at the block's
    -- slot; without one it keeps its report, unless that was judged bad or wonky, has become
    -- available or has waited for five slots.
    pub after_block_lem :
        (core : ℕ) (rho : List (Option RhoElement)) (rho_c : Option RhoElement)
        → get_elem? rho core ≡ some rho_c
        → (p_rho_c : Option RhoElement) × (get_elem?
              (after_block bad wonky new_reports guaranteed p_tau rho)
              core
            ≡ some p_rho_c)
          × IsAfterBlock core rho_c p_rho_c
    unfolding to_posterior
    after_block_lem core rho rho_c e =
        let zero_core : 0 + core ≡ core = omega arith in
        (
          newly_reported (element_for_core guaranteed core) p_tau
              (stays bad wonky new_reports p_tau rho_c),
          rw zero_core at (from_core 0 core rho rho_c e),
          newly_reported-IsAfterBlock core rho_c,
        )
