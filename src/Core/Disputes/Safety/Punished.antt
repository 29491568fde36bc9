-- ===== src/Core/Disputes/Safety/Punished.antt =====
-- Who is punished: the new offenders were validators, and a report judged bad has its guarantors.
use tsjam.Prelude.{
  ℕ, ◌≤◌, ◌≡◌, ◌≢◌, refl, sym, ap, ◌∙◌, arith, ◌⊎◌, inl, inr, Bool, true, false, not, ◌&&◌, ◌||◌,
  List, [], ◌∷◌, ◌++◌, map, Bool-cases, All, any, any-append, every, filter, subst, length, leb→le,
}
use tsjam.Prelude.Result.{ok}
use tsjam.Core.Bytes.{Bytes, bytes_eq, bytes_eq_refl, bytes_eq→eq, bytes_lt, lt-ne}
use tsjam.Core.Constants.{Constants, jam_guarantee}
use tsjam.Core.IdentitySet.{has, from_values, has-from_values, has-delete_all}
use tsjam.Core.Validators.{Validators, ed25519_keys}
use tsjam.Core.Disputes.Types.{Tally, Culprit, Fault, DisputesState, DisputeExtrinsic}
use tsjam.Core.Disputes.Verdicts.{ascending, votes}
use tsjam.Core.Disputes.Accused.{
  accusable, check_culprits, check_faults, check_extrinsic, is_zero, has_two_culprits,
  culprit_signed,
}
use tsjam.Core.Disputes.State.{posterior_sets}
use tsjam.Core.Disputes.Safety.Unique.{ascending-lt, ascending_tail, both}
use tsjam.Core.Disputes.Safety.Disjoint.{verdict_on, has-judged}

module _ (c : Constants) (kappa lambda : Validators c) (state : DisputesState) where
  -- A key that may be accused: of a validator of this epoch or of the last, and no offender.
  pub has-accusable :
      (k : Bytes)
      → has (accusable c kappa lambda state) k
        ≡ (has (ed25519_keys kappa.elements) k || has (ed25519_keys lambda.elements) k)
          && not (has state.offenders k)
  unfolding accusable
  has-accusable k =
      has-delete_all k (from_values keys) state.offenders
      ∙ ap (λ b. b && not (has state.offenders k))
          (has-from_values k keys
            ∙ any-append (λ x. bytes_eq x k) (ed25519_keys kappa.elements)
                (ed25519_keys lambda.elements))
    where
      keys : List Bytes
      keys = ed25519_keys kappa.elements ++ ed25519_keys lambda.elements

-- Where every key of a list is in a set, so is each.
keys_in :
    {A : Type 0} (key : A → Bytes) (s : List Bytes) (xs : List A) (k : Bytes)
    → every (λ x. has s (key x)) xs ≡ true
    → has (map key xs) k ≡ true
    → has s k ≡ true
keys_in key s [] k h e = cc
keys_in key s (x ∷ xs) k h e = elim (Bool-cases (bytes_eq (key x) k)) [
  | inr differs ↦ keys_in key s xs k (ground arith) (ground arith)
  | inl same ↦ subst (λ b. has s b ≡ true) (bytes_eq→eq (key x) k same) (ground arith)
]

module _ (c : Constants) (verify : Bytes → Bytes → Bytes → Bool) where
  module _ (epoch_index : ℕ) (kappa lambda : Validators c) (state : DisputesState) where
    -- The keys of the culprits and of the faults of a checked extrinsic may be accused.
    culprit_keys :
        (x : DisputeExtrinsic)
        → check_extrinsic c verify epoch_index kappa lambda state x ≡ ok tt
        → every (λ (y : Culprit). has (accusable c kappa lambda state) y.key) x.culprits ≡ true
    unfolding check_extrinsic check_culprits
    culprit_keys x h = ground arith

    fault_keys :
        (x : DisputeExtrinsic)
        → check_extrinsic c verify epoch_index kappa lambda state x ≡ ok tt
        → every (λ (y : Fault). has (accusable c kappa lambda state) y.key) x.faults ≡ true
    unfolding check_extrinsic check_faults
    fault_keys x h = ground arith

    -- An offender of the posterior state was one before, or is a validator of this epoch or of the
    -- last one and was none before.
    pub offenders-posterior_sets :
        (x : DisputeExtrinsic) (k : Bytes)
        → check_extrinsic c verify epoch_index kappa lambda state x ≡ ok tt
        → has (posterior_sets c state x).offenders k ≡ true
        → (has state.offenders k ≡ true)
          ⊎ (((has (ed25519_keys kappa.elements) k || has (ed25519_keys lambda.elements) k)
                && not (has state.offenders k))
              ≡ true)
    unfolding posterior_sets
    offenders-posterior_sets x k h e = elim (Bool-cases (has state.offenders k)) [
      | inl old ↦ inl old
      | inr fresh ↦ inr (sym (has-accusable c kappa lambda state k) ∙ new fresh)
    ]
      where
        of_culprits : List Bytes
        of_culprits = map (λ y. y.key) x.culprits

        of_faults : List Bytes
        of_faults = map (λ y. y.key) x.faults

        accused : has state.offenders k ≡ false → (has of_culprits k || has of_faults k) ≡ true
        accused fresh =
            let e1 = has-from_values k (state.offenders ++ (of_culprits ++ of_faults)) in
            let e2 = any-append (λ y. bytes_eq y k) state.offenders (of_culprits ++ of_faults) in
            let e3 = any-append (λ y. bytes_eq y k) of_culprits of_faults in ground arith

        new : has state.offenders k ≡ false → has (accusable c kappa lambda state) k ≡ true
        new fresh = elim (Bool-cases (has of_culprits k)) [
          | inl hit ↦
              keys_in (λ y. y.key) (accusable c kappa lambda state) x.culprits k (culprit_keys x h)
                hit
          | inr miss ↦
              let e4 = accused fresh in
              keys_in (λ y. y.key) (accusable c kappa lambda state) x.faults k (fault_keys x h)
                (ground arith)
        ]

-- The culprit names the report, with this key and this signature.
abbrev pub names : Bytes → Bytes → Bytes → Culprit → Bool
names r k signature y = bytes_eq y.target r && bytes_eq y.key k && bytes_eq y.signature signature

names_itself :
    (r : Bytes) (y : Culprit) → bytes_eq y.target r ≡ true → names r y.key y.signature y ≡ true
names_itself r y hit = rw (hit, bytes_eq_refl y.key, bytes_eq_refl y.signature) refl

-- A culprit of a list that names the report and passes a test.
abbrev Named : (Culprit → Bool) → Bytes → List Culprit → Culprit → Type 0
Named p r ys y =
    (bytes_eq y.target r ≡ true) × (p y ≡ true) × (any (names r y.key y.signature) ys ≡ true)

module _ (p : Culprit → Bool) (r : Bytes) where
  Named-here :
      (y : Culprit) (ys : List Culprit)
      → every p (y ∷ ys) ≡ true
      → bytes_eq y.target r ≡ true
      → Named p r (y ∷ ys) y
  Named-here y ys good hit = (hit, ground arith, rw (names_itself r y hit) refl)

  Named-later : (y z : Culprit) (ys : List Culprit) → Named p r ys z → Named p r (y ∷ ys) z
  Named-later y z ys n = (n.0, n.1, ground (arith, n.2))

  -- One culprit of a list, with a key after another key.
  found :
      (k : Bytes) (ys : List Culprit)
      → All (λ z. bytes_lt k z ≡ true) (map (λ y. y.key) ys)
      → every p ys ≡ true
      → 1 ≤ length (filter (λ y. bytes_eq y.target r) ys)
      → (y : Culprit) × (bytes_lt k y.key ≡ true) × Named p r ys y
  found k [] h good l = absurd (omega arith)
  found k (y ∷ ys) h good l = elim (Bool-cases (bytes_eq y.target r)) [
    | inl hit ↦ (y, h.0, Named-here y ys good hit)
    | inr miss ↦
        let later = found k ys h.1 (ground arith) (rw miss at l) in
        (later.0, later.1, Named-later y later.0 ys later.2)
  ]

  two-Named :
      (ys : List Culprit)
      → ascending (map (λ y. y.key) ys) ≡ true
      → every p ys ≡ true
      → 2 ≤ length (filter (λ y. bytes_eq y.target r) ys)
      → (y z : Culprit) × (bytes_lt y.key z.key ≡ true) × Named p r ys y × Named p r ys z
  two-Named [] asc good l = absurd (omega arith)
  two-Named (y ∷ ys) asc good l = elim (Bool-cases (bytes_eq y.target r)) [
    | inl hit ↦
        let rest =
          found y.key ys (ascending-lt y.key (map (λ z. z.key) ys) asc) (ground arith)
            (omega (arith, rw hit at l)) in
        (y, rest.0, rest.1, Named-here y ys good hit, Named-later y rest.0 ys rest.2)
    | inr miss ↦
        let rest =
          two-Named ys (ascending_tail y.key (map (λ z. z.key) ys) asc) (ground arith)
            (rw miss at l) in
        (rest.0, rest.1, rest.2, Named-later y rest.0 ys rest.3, Named-later y rest.1 ys rest.4)
  ]

every-both :
    (p q : Culprit → Bool) (ys : List Culprit)
    → every p ys ≡ true
    → every q ys ≡ true
    → every (λ y. p y && q y) ys ≡ true
every-both p q [] h g = refl
every-both p q (y ∷ ys) h g =
    let rest = every-both p q ys (ground arith) (ground arith) in ground (arith, rest)

-- An array that comes before another one differs from it.
lt_differ : (k l : Bytes) → bytes_lt k l ≡ true → k ≢ l
lt_differ k l h e =
    let same = ap (λ x. bytes_eq k x) e in
    let differ = sym (lt-ne k l h) ∙ sym same ∙ bytes_eq_refl k in cc

module _ (c : Constants) (verify : Bytes → Bytes → Bytes → Bool) (kappa lambda : Validators c)
    (state : DisputesState) where
  -- A culprit shows that the validator with the key guaranteed the report: it has a signature by the
  -- key on a guarantee of the report. The validator is of this epoch or the last, and no offender.
  abbrev pub IsGuarantor : List Culprit → Bytes → Bytes → Type 0
  IsGuarantor culprits r k =
      (signature : Bytes) × (any (names r k signature) culprits ≡ true)
      × (verify signature k (jam_guarantee ++ r) ≡ true)
      × (((has (ed25519_keys kappa.elements) k || has (ed25519_keys lambda.elements) k)
            && not (has state.offenders k))
          ≡ true)

  abbrev pub HasTwoGuarantors : List Culprit → Bytes → Type 0
  HasTwoGuarantors culprits r =
      (k l : Bytes) × (k ≢ l) × IsGuarantor culprits r k × IsGuarantor culprits r l

  -- The tests of one culprit.
  abbrev is_proved : Culprit → Bool
  is_proved y = has (accusable c kappa lambda state) y.key && culprit_signed c verify y

  Named-IsGuarantor :
      (r : Bytes) (ys : List Culprit) (y : Culprit)
      → Named is_proved r ys y
      → IsGuarantor ys r y.key
  Named-IsGuarantor r ys y n =
      let parts = both _ _ n.1 in
      (
        y.signature,
        n.2,
        subst (λ t. verify y.signature y.key (jam_guarantee ++ t) ≡ true)
            (bytes_eq→eq y.target r n.0) parts.1,
        sym (has-accusable c kappa lambda state y.key) ∙ parts.0,
      )

-- A test that every chosen element passes.
chosen_pass :
    (p : Bytes → Bool) (bold_v : List Tally) (r : Bytes)
    → every (λ t. p t.report_hash) (filter (λ t. is_zero t.votes) bold_v) ≡ true
    → verdict_on is_zero bold_v r ≡ true
    → p r ≡ true
chosen_pass p [] r h e = cc
chosen_pass p (t ∷ ts) r h e = elim (Bool-cases (is_zero t.votes)) [
  | inr n ↦ chosen_pass p ts r (rw n at h) (ground arith)
  | inl z ↦
      let parts = both _ _ (rw z at h) in
      elim (Bool-cases (bytes_eq t.report_hash r)) [
        | inl same ↦ subst (λ b. p b ≡ true) (bytes_eq→eq t.report_hash r same) parts.0
        | inr differs ↦ chosen_pass p ts r parts.1 (ground arith)
      ]
]

module _ (c : Constants) (verify : Bytes → Bytes → Bytes → Bool) where
  module _ (epoch_index : ℕ) (kappa lambda : Validators c) (state : DisputesState) where
    checked_culprits :
        (x : DisputeExtrinsic)
        → check_extrinsic c verify epoch_index kappa lambda state x ≡ ok tt
        → (ascending (map (λ y. y.key) x.culprits) ≡ true)
          × (every (culprit_signed c verify) x.culprits ≡ true)
          × (every
                (λ t. has_two_culprits c verify x.culprits t.report_hash)
                (filter (λ t. is_zero t.votes) (votes c x.verdicts))
              ≡ true)
    unfolding check_extrinsic check_culprits
    checked_culprits x h = (ground arith, ground arith, ground arith)

    -- A report that an extrinsic which passes its check newly judges bad has two different keys of
    -- validators of this epoch or of the last one, none an offender before, and for each a culprit of
    -- the extrinsic with a signature by that key on a guarantee of the report.
    pub bad-HasTwoGuarantors :
        (x : DisputeExtrinsic) (r : Bytes)
        → check_extrinsic c verify epoch_index kappa lambda state x ≡ ok tt
        → has state.bad r ≡ false
        → has (posterior_sets c state x).bad r ≡ true
        → HasTwoGuarantors c verify kappa lambda state x.culprits r
    unfolding posterior_sets
    bad-HasTwoGuarantors x r h old new =
        let verdict : verdict_on is_zero (votes c x.verdicts) r ≡ true =
          ground (arith, has-judged state.bad is_zero (votes c x.verdicts) r) in
        let checked = checked_culprits x h in
        let proved =
          every-both _ _ x.culprits (culprit_keys c verify epoch_index kappa lambda state x h)
            checked.1 in
        let two = two-Named (is_proved c verify kappa lambda state) r x.culprits checked.0 proved (
          leb→le _ _ (
            chosen_pass (has_two_culprits c verify x.culprits) (votes c x.verdicts) r checked.2
              verdict)) in
        (
          two.0.key,
          two.1.key,
          lt_differ two.0.key two.1.key two.2,
          Named-IsGuarantor c verify kappa lambda state r x.culprits two.0 two.3,
          Named-IsGuarantor c verify kappa lambda state r x.culprits two.1 two.4,
        )
