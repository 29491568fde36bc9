-- ===== src/Pvm/Ixdb/New.antt =====
-- `regIx` adds an instruction whose code and name are new, and throws on any other.
use text.Mathlib.Text.{◌==◌ as str_eq}
use tsjam.Prelude.{
  ℕ, ◌≡◌, ◌≢◌, ◌⊎◌, refl, sym, ◌∙◌, arith, inl, inr, false, some, none, List, [], ◌∷◌, ◌==◌,
  Bool-cases, Option-cases, All,
}
use tsjam.Pvm.Ixdb.{Ix, by_code, has_identifier, reg_ix}

-- Two instructions with different codes and names.
abbrev pub IsApart : Ix → Ix → Type 0
IsApart i j = (i.op_code ≢ j.op_code) × (str_eq i.identifier j.identifier ≡ false)

-- No two instructions of a list have one code or one name.
abbrev pub IsDistinct : List Ix → Type 0
IsDistinct [] = Unit {0}
IsDistinct (i ∷ is) = All (IsApart i) is × IsDistinct is

-- An instruction that a database has no code and no name of.
abbrev pub IsNew : List Ix → Ix → Type 0
IsNew db i = (by_code db i.op_code ≡ none) × (has_identifier db i.identifier ≡ false)

pub differs : (m n : ℕ) → (m == n) ≡ false → m ≢ n
differs m n h same = ground (arith, same)

pub not_equal : (m n : ℕ) → m ≢ n → (m == n) ≡ false
not_equal m n h = elim (Bool-cases (m == n)) [
  | inr other ↦ other
  | inl same ↦ absurd (h (ground arith))
]

IsNew-cons : (db : List Ix) (i j : Ix) → IsNew db j → IsApart i j → IsNew (i ∷ db) j
unfolding by_code has_identifier
IsNew-cons db i j new apart = (rw (not_equal i.op_code j.op_code apart.0) new.0, rw (apart.1) new.1)

IsNew-uncons : (db : List Ix) (i j : Ix) → IsNew (i ∷ db) j → IsNew db j × IsApart i j
unfolding by_code has_identifier
IsNew-uncons db i j new = elim (Bool-cases (i.op_code == j.op_code)) [
  | inl same ↦ let no_code = rw same at new.0 in cc
  | inr other ↦ elim (Bool-cases (str_eq i.identifier j.identifier)) [
    | inl named ↦ let no_name = rw named at new.1 in cc
    | inr apart ↦
        ((rw other at new.0, rw apart at new.1), (differs i.op_code j.op_code other, apart))
  ]
]

pub news-cons :
    (db : List Ix) (i : Ix) (is : List Ix)
    → All (IsNew db) is
    → All (IsApart i) is
    → All (IsNew (i ∷ db)) is
news-cons db i [] new apart = tt
news-cons db i (j ∷ is) new apart =
    (IsNew-cons db i j new.0 apart.0, news-cons db i is new.1 apart.1)

pub news-uncons :
    (db : List Ix) (i : Ix) (is : List Ix)
    → All (IsNew (i ∷ db)) is
    → All (IsNew db) is × All (IsApart i) is
news-uncons db i [] new = (tt, tt)
news-uncons db i (j ∷ is) new =
    let first = IsNew-uncons db i j new.0 in
    let rest = news-uncons db i is new.1 in ((first.0, rest.0), (first.1, rest.1))

-- One registration: it adds a new instruction, and throws on any other.
pub reg_ix-cases :
    (db : List Ix) (i : Ix)
    → (IsNew db i × (reg_ix db i ≡ some (i ∷ db))) ⊎ (¬ IsNew db i × (reg_ix db i ≡ none))
unfolding reg_ix
reg_ix-cases db i = elim (Option-cases (by_code db i.op_code)) [
  | inr (k, taken) ↦ inr (λ new. let no_code = sym taken ∙ new.0 in cc, rw taken refl)
  | inl free ↦ elim (Bool-cases (has_identifier db i.identifier)) [
    | inl named ↦ inr (λ new. let no_name = sym named ∙ new.1 in cc, rw (free, named) refl)
    | inr fresh ↦ inl ((free, fresh), rw (free, fresh) refl)
  ]
]
