-- ===== src/Pvm/Ixdb/Registry.antt =====
-- `regIx` over a list of instructions: when it throws, and what the database finds afterwards.
use tsjam.Prelude.{
  ℕ, ◌≡◌, ◌≢◌, ◌⊎◌, refl, sym, ap, ◌∙◌, arith, inl, inr, true, some, none, List, [], ◌∷◌, ◌++◌,
  ◌==◌, Bool-cases, All,
}
use tsjam.Pvm.Ixdb.{Ix, by_code, has_identifier, reg_all}
use tsjam.Pvm.Ixdb.New.{IsDistinct, IsNew, differs, not_equal, news-cons, news-uncons, reg_ix-cases}

-- The database finds under a code the instruction of the list that has it, or nothing where none has.
abbrev pub IsLookup : List Ix → List Ix → ℕ → Type 0
IsLookup is db op_code =
    ((before after : List Ix) × (i : Ix) × (is ≡ before ++ (i ∷ after))
      × (i.op_code ≡ op_code)
      × (by_code db op_code ≡ some i))
    ⊎ (All (λ (i : Ix). i.op_code ≢ op_code) is × (by_code db op_code ≡ none))

-- A database after more registrations finds what it found, finds each of the new instructions, and
-- nothing else.
abbrev Extends : List Ix → List Ix → List Ix → Type 0
Extends db is db' =
    ((op_code : ℕ) (j : Ix) → by_code db op_code ≡ some j → by_code db' op_code ≡ some j)
    × ((op_code : ℕ)
        → ((before after : List Ix) × (i : Ix) × (is ≡ before ++ (i ∷ after))
            × (i.op_code ≡ op_code)
            × (by_code db' op_code ≡ some i))
          ⊎ (All (λ (i : Ix). i.op_code ≢ op_code) is × (by_code db' op_code ≡ by_code db op_code)))

Extends-nil : (db : List Ix) → Extends db [] db
Extends-nil db = (λ op_code j found. found, λ op_code. inr (tt, refl))

by_code-here : (db : List Ix) (i : Ix) → by_code (i ∷ db) i.op_code ≡ some i
unfolding by_code
by_code-here db i = let e : (i.op_code == i.op_code) ≡ true = ground arith in rw e refl

by_code-other :
    (db : List Ix) (i : Ix) (op_code : ℕ)
    → i.op_code ≢ op_code
    → by_code (i ∷ db) op_code ≡ by_code db op_code
unfolding by_code
by_code-other db i op_code other = rw (not_equal i.op_code op_code other) refl

Extends-cons :
    (db : List Ix) (i : Ix) (is db' : List Ix)
    → by_code db i.op_code ≡ none
    → Extends (i ∷ db) is db'
    → Extends db (i ∷ is) db'
Extends-cons db i is db' free grown = (kept, lookup)
  where
    kept : (op_code : ℕ) (j : Ix) → by_code db op_code ≡ some j → by_code db' op_code ≡ some j
    kept op_code j found = elim (Bool-cases (i.op_code == op_code)) [
      | inr other ↦
          grown.0 op_code j (by_code-other db i op_code (differs i.op_code op_code other) ∙ found)
      | inl same ↦
          let e : i.op_code ≡ op_code = ground arith in
          let clash = sym free ∙ ap (λ (k : ℕ). by_code db k) e ∙ found in cc
    ]

    lookup :
        (op_code : ℕ)
        → ((before after : List Ix) × (j : Ix) × (i ∷ is ≡ before ++ (j ∷ after))
            × (j.op_code ≡ op_code)
            × (by_code db' op_code ≡ some j))
          ⊎ (All (λ (j : Ix). j.op_code ≢ op_code) (i ∷ is)
              × (by_code db' op_code ≡ by_code db op_code))
    lookup op_code = elim (Bool-cases (i.op_code == op_code)) [
      | inl same ↦
          let e : i.op_code ≡ op_code = ground arith in
          inl (
            [],
            is,
            i,
            refl,
            e,
            ap (λ (k : ℕ). by_code db' k) (sym e) ∙ grown.0 i.op_code i (by_code-here db i),
          )
      | inr other ↦
          let apart = differs i.op_code op_code other in
          elim (grown.1 op_code) [
            | inl (before, after, j, split, code, found) ↦
                inl (i ∷ before, after, j, ap (λ js. i ∷ js) split, code, found)
            | inr (others, e) ↦ inr ((apart, others), e ∙ by_code-other db i op_code apart)
          ]
    ]

reg_all-cases :
    (is db : List Ix)
    → ((db' : List Ix) × All (IsNew db) is
        × IsDistinct is
        × (reg_all db is ≡ some db')
        × Extends db is db')
      ⊎ (¬ (All (IsNew db) is × IsDistinct is) × (reg_all db is ≡ none))
unfolding reg_all
reg_all-cases [] db = inl (db, tt, tt, refl, Extends-nil db)
reg_all-cases (i ∷ is) db = elim (reg_ix-cases db i) [
  | inr (old, e) ↦ inr (λ good. old good.0.0, rw e refl)
  | inl (new, e) ↦ elim (reg_all-cases is (i ∷ db)) [
    | inl (db', news, apart, done, grown) ↦
        let parts = news-uncons db i is news in
        inl (db', (new, parts.0), (parts.1, apart), rw e done, Extends-cons db i is db' new.0 grown)
    | inr (clash, done) ↦
        inr (λ good. clash (news-cons db i is good.0.1 good.1.0, good.1.1), rw e done)
  ]
]

All-IsNew : (is : List Ix) → All (IsNew []) is
unfolding by_code has_identifier
All-IsNew [] = tt
All-IsNew (i ∷ is) = ((refl, refl), All-IsNew is)

-- The registrations of a list of instructions in an empty database throw exactly where two of the
-- instructions have one code or one name. Otherwise the database finds under a code the instruction
-- of the list that has it, or nothing where none has.
pub reg_all-IsLookup :
    (is : List Ix) (op_code : ℕ)
    → ((db : List Ix) × IsDistinct is × (reg_all [] is ≡ some db) × IsLookup is db op_code)
      ⊎ (¬ IsDistinct is × (reg_all [] is ≡ none))
unfolding by_code
reg_all-IsLookup is op_code = elim (reg_all-cases is []) [
  | inl (db, news, apart, done, grown) ↦ inl (db, apart, done, grown.1 op_code)
  | inr (clash, done) ↦ inr (λ apart. clash (All-IsNew is, apart), done)
]
