-- ===== src/Core/IdentitySet.antt =====
-- `IdentitySet` of packages/jam-core/src/data-structures/identity-set.ts: a set of byte arrays, kept
-- in the order of insertion. The source finds an array by the number it reads from its bytes; the
-- arrays of one set have one length, so two of them with one number are equal.
use tsjam.Prelude.{
  ◌≡◌, refl, arith, inl, inr, Bool, true, not, ◌&&◌, ◌||◌, List, [], ◌∷◌, ◌++◌, if◌then◌else◌, any,
  any-append, filter, Bool-cases, sym, ◌∙◌, ap,
}
use tsjam.Core.Bytes.{Bytes, bytes_eq, bytes_eq→eq, bytes_eq_cong, bytes_eq_both}

abbrev pub has : List Bytes → Bytes → Bool
has s value = any (λ x. bytes_eq x value) s

-- `add`: a value that is there stays where it is.
unfoldable pub add : List Bytes → Bytes → List Bytes
add s value = if has s value then s else s ++ (value ∷ [])

abbrev pub add_all : List Bytes → List Bytes → List Bytes
add_all s [] = s
add_all s (value ∷ values) = add_all (add s value) values

-- The constructor: adds the values one after the other.
unfoldable pub from_values : List Bytes → List Bytes
from_values values = add_all [] values

unfoldable pub delete : List Bytes → Bytes → List Bytes
delete s value = filter (λ x. not (bytes_eq x value)) s

-- `values.forEach((v) => s.delete(v))`
unfoldable pub delete_all : List Bytes → List Bytes → List Bytes
delete_all s [] = s
delete_all s (value ∷ values) = delete_all (delete s value) values

module _ (value : Bytes) where
  -- Membership depends on the bytes of a value alone.
  pub has-add : (s : List Bytes) (x : Bytes) → has (add s x) value ≡ has s value || bytes_eq x value
  unfolding add
  has-add s x = elim (Bool-cases (has s x)) [
    | inr fresh ↦ rw (fresh, any-append (λ y. bytes_eq y value) s (x ∷ [])) (ground arith)
    | inl there ↦ elim (Bool-cases (bytes_eq x value)) [
      | inr other ↦ rw (there, other) (ground arith)
      | inl same ↦
          let e : has s value ≡ true = ap (λ v. has s v) (sym (bytes_eq→eq x value same)) ∙ there in
          rw (there, same) (ground arith)
    ]
  ]

  pub has-add_all :
      (s values : List Bytes) → has (add_all s values) value ≡ has s value || has values value
  has-add_all s [] = ground arith
  has-add_all s (x ∷ xs) = ground (arith, has-add_all (add s x) xs, has-add s x)

  -- A set has the values it was made from.
  pub has-from_values : (values : List Bytes) → has (from_values values) value ≡ has values value
  unfolding from_values
  has-from_values values = ground (arith, has-add_all [] values)

  pub has-delete :
      (s : List Bytes) (x : Bytes) → has (delete s x) value ≡ has s value && not (bytes_eq x value)
  unfolding delete
  has-delete [] x = refl
  has-delete (y ∷ s) x = elim (Bool-cases (bytes_eq y x)) [
    | inr other ↦ elim (Bool-cases (bytes_eq y value)) [
      | inr n ↦ rw (other, n) (ground (arith, has-delete s x))
      | inl p ↦ elim (Bool-cases (bytes_eq x value)) [
        | inr n ↦ rw (other, p, n) (ground (arith, has-delete s x))
        | inl q ↦ absurd (cc (bytes_eq_both y x value p q))
      ]
    ]
    | inl same ↦ rw same (ground (arith, has-delete s x, bytes_eq_cong y x value same))
  ]

  pub has-delete_all :
      (s values : List Bytes)
      → has (delete_all s values) value ≡ has s value && not (has values value)
  unfolding delete_all
  has-delete_all s [] = ground arith
  has-delete_all s (x ∷ xs) = ground (arith, has-delete_all (delete s x) xs, has-delete s x)
