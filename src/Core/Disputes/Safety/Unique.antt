-- ===== src/Core/Disputes/Safety/Unique.antt =====
-- In a list of arrays that ascends, an array stands once.
use tsjam.Prelude.{◌≡◌, refl, arith, Bool, true, false, ◌&&◌, List, [], ◌∷◌, All}
use tsjam.Core.Bytes.{Bytes, bytes_lt, bytes_lt_trans, lt-ne, bytes_eq_comm}
use tsjam.Core.IdentitySet.{has}
use tsjam.Core.Disputes.Verdicts.{ascending}

-- Both halves of a conjunction that holds.
pub both : (a b : Bool) → (a && b) ≡ true → (a ≡ true) × (b ≡ true)
both a b h = (ground arith, ground arith)

pub ascending-lt :
    (x : Bytes) (xs : List Bytes) → ascending (x ∷ xs) ≡ true → All (λ y. bytes_lt x y ≡ true) xs
unfolding ascending
ascending-lt x [] h = tt
ascending-lt x (y ∷ ys) h =
    let parts = both _ _ h in (parts.0, later ys (ascending-lt y ys parts.1))
  where
    later :
        (zs : List Bytes) → All (λ z. bytes_lt y z ≡ true) zs → All (λ z. bytes_lt x z ≡ true) zs
    later [] h' = tt
    later (z ∷ zs) h' = (bytes_lt_trans x y z (both _ _ h).0 h'.0, later zs h'.1)

pub ascending_tail : (x : Bytes) (xs : List Bytes) → ascending (x ∷ xs) ≡ true → ascending xs ≡ true
unfolding ascending
ascending_tail x [] h = refl
ascending_tail x (y ∷ ys) h = (both _ _ h).1

-- The first array is not among the others.
pub has-ascending : (x : Bytes) (xs : List Bytes) → ascending (x ∷ xs) ≡ true → has xs x ≡ false
has-ascending x xs h = none_of xs (ascending-lt x xs h)
  where
    none_of : (ys : List Bytes) → All (λ y. bytes_lt x y ≡ true) ys → has ys x ≡ false
    none_of [] h' = refl
    none_of (y ∷ ys) h' = rw (bytes_eq_comm y x, lt-ne x y h'.0) (none_of ys h'.1)
