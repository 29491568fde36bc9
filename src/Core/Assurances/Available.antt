-- ===== src/Core/Assurances/Available.antt =====
-- A report becomes available by the votes of more than two thirds of the validators.
use tsjam.Prelude.{
  ℕ, zero, suc, ◌+◌, ◌*◌, ◌<◌, ◌≤◌, ◌≡◌, refl, arith, inl, inr, Bool, true, false, Option, none,
  some, List, [], ◌∷◌, map, All, ltb, every, Bool-cases, count, ◌==◌,
}
use tsjam.Prelude.Result.{ok, check, check_passed}
use tsjam.Core.Bytes.{Bytes}
use tsjam.Core.Constants.{Constants}
use tsjam.Core.Validators.{Validators}
use tsjam.Core.Disputes.Verdicts.{increasing}
use tsjam.Core.Reports.{WorkReport}
use tsjam.Core.Rho.{RhoElement}
use tsjam.Core.Assurances.{
  Assurance, votes_for, element_at, is_there, only_pending, n_positive_votes, is_signature_valid,
  is_valid, check_validity, available_loop, newly_available_reports,
}

-- A core has the report, and more than two thirds of the validators voted for the core.
abbrev pub IsAssured : ℕ → List Assurance → List (Option RhoElement) → WorkReport → Type 0
IsAssured n elements d_rho r =
    (core : ℕ) × (e : RhoElement) × (element_at d_rho core ≡ some e)
    × (e.work_report ≡ r)
    × (n * 2 < 3 * count (votes_for core) elements)

n_positive_votes-count :
    (elements : List Assurance) (core : ℕ)
    → n_positive_votes elements core ≡ count (votes_for core) elements
unfolding n_positive_votes
n_positive_votes-count [] core = refl
n_positive_votes-count (a ∷ elements) core = ground (arith, n_positive_votes-count elements core)

-- A vote for one of the cores is for a report that is there.
only_pending-there :
    (rounds first core : ℕ) (a : Assurance) (d_rho : List (Option RhoElement))
    → first ≤ core
    → core < rounds + first
    → only_pending rounds first a d_rho ≡ true
    → votes_for core a ≡ true
    → is_there (element_at d_rho core) ≡ true
unfolding only_pending
only_pending-there zero first core a d_rho low high h vote = absurd (omega arith)
only_pending-there (suc rounds) first core a d_rho low high h vote =
    elim (Bool-cases (first == core)) [
      | inl same ↦
          let e : first ≡ core = ground arith in
          elim (Bool-cases (is_there (element_at d_rho core))) [
            | inl there ↦ there
            | inr empty ↦ let no = rw (e, vote, empty) at h in cc
          ]
      | inr differs ↦
          only_pending-there rounds (suc first) core a d_rho (ground arith) (omega arith)
            (ground arith) vote
    ]

is_there-some : {A : Type 0} (m : Option A) → is_there m ≡ true → (a : A) × (m ≡ some a)
is_there-some none h = cc
is_there-some (some a) h = (a, refl)

ok_check : {E : Type 0} (b : Bool) (e : E) → check b e ≡ ok tt → b ≡ true
ok_check false e h = cc
ok_check true e h = refl

module _ (c : Constants) (blake2b : Bytes → Bytes) (verify : Bytes → Bytes → Bytes → Bool)
    (parent : Bytes) (kappa : Validators c) (d_rho : List (Option RhoElement)) where
  abbrev valid : Assurance → Bool
  valid a = is_valid c blake2b verify parent kappa d_rho a

  valid-only_pending : (a : Assurance) → valid a ≡ true → only_pending c.cores 0 a d_rho ≡ true
  unfolding is_valid
  valid-only_pending a h = ground arith

  valid-signed :
      (a : Assurance) → valid a ≡ true → is_signature_valid c blake2b verify kappa parent a ≡ true
  unfolding is_valid
  valid-signed a h = ground arith

  every-signed :
      (elements : List Assurance)
      → every valid elements ≡ true
      → every (is_signature_valid c blake2b verify kappa parent) elements ≡ true
  every-signed [] h = refl
  every-signed (a ∷ elements) h =
      let first = valid-signed a (ground arith) in
      let rest = every-signed elements (ground arith) in ground arith

  -- A core with a vote has a report.
  voted-there :
      (elements : List Assurance) (core : ℕ)
      → every valid elements ≡ true
      → core < c.cores
      → 0 < count (votes_for core) elements
      → is_there (element_at d_rho core) ≡ true
  voted-there [] core h small some_vote = absurd (omega arith)
  voted-there (a ∷ elements) core h small some_vote = elim (Bool-cases (votes_for core a)) [
    | inl vote ↦
        only_pending-there c.cores 0 core a d_rho (omega arith) (omega arith)
          (valid-only_pending a (ground arith)) vote
    | inr none_here ↦ voted-there elements core (ground arith) small (ground arith)
  ]

  available_loop-IsAssured :
      (rounds first n : ℕ) (elements : List Assurance)
      → every valid elements ≡ true
      → rounds + first ≤ c.cores
      → (rs : List WorkReport) × (available_loop rounds first n elements d_rho ≡ some rs)
        × All (IsAssured n elements d_rho) rs
  unfolding available_loop
  available_loop-IsAssured zero first n elements h small = ([], refl, tt)
  available_loop-IsAssured (suc rounds) first n elements h small =
      let rest = available_loop-IsAssured rounds (suc first) n elements h (omega arith) in
      elim (Bool-cases (ltb (n * 2) (3 * n_positive_votes elements first))) [
        | inl many ↦
            let votes : n * 2 < 3 * count (votes_for first) elements =
              ground (arith, n_positive_votes-count elements first) in
            let there =
              is_there-some (element_at d_rho first)
                (voted-there elements first h (omega arith) (omega arith)) in
            (
              there.0.work_report ∷ rest.0,
              rw (many, there.1, rest.1) refl,
              ((first, there.0, there.1, refl, votes), rest.2),
            )
        | inr few ↦ (rest.0, rw few rest.1, rest.2)
      ]

  -- For assurances that pass their check, the reports are found without an exception; each is that
  -- of a core, and more than two thirds of the number of validators voted for the core. The
  -- assurances are by different validators, in the order of their indices, and every one is signed.
  pub newly_available_reports-IsAssured :
      (elements : List Assurance)
      → check_validity c blake2b verify parent kappa d_rho elements ≡ ok tt
      → (rs : List WorkReport) × (newly_available_reports c elements d_rho ≡ some rs)
        × All (IsAssured c.number_of_validators elements d_rho) rs
        × (increasing (map (λ a. a.validator_index) elements) ≡ true)
        × (every (is_signature_valid c blake2b verify kappa parent) elements ≡ true)
  unfolding newly_available_reports check_validity
  newly_available_reports-IsAssured elements h =
      let size = check_passed _ _ _ h in
      let order = check_passed _ _ _ size.1 in
      let each = ok_check _ _ order.1 in
      let found =
        available_loop-IsAssured c.cores 0 c.number_of_validators elements each (omega arith) in
      (found.0, found.1, found.2, order.0, every-signed elements each)
