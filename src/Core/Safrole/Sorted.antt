-- ===== src/Core/Safrole/Sorted.antt =====
-- The sort of the accumulator: no ticket is lost, and different ids come out strictly ascending.
use tsjam.Prelude.{
  ℕ, zero, suc, ◌≡◌, refl, ◌∙◌, arith, inl, inr, true, false, ◌||◌, List, [], ◌∷◌, ◌++◌, All,
  Bool-cases, take,
}
use tsjam.Core.Bytes.{Bytes, bytes_eq, bytes_lt, bytes_lt_trans, bytes_total, bytes_eq_refl}
use tsjam.Core.IdentitySet.{has}
use tsjam.Core.Disputes.Verdicts.{ascending}
use tsjam.Core.Disputes.Safety.Unique.{ascending-lt, ascending_tail, has-ascending}
use tsjam.Core.Safrole.Tickets.{Ticket, ids, insert, sort}

-- Every id is greater than `x`.
abbrev pub AllGreater : Bytes → List Ticket → Type 0
AllGreater x ts = All (λ (t : Ticket). bytes_lt x t.id ≡ true) ts

-- An ascending list, by its head.
abbrev pub IsSorted : List Ticket → Type 0
IsSorted [] = Unit {0}
IsSorted (t ∷ ts) = AllGreater t.id ts × IsSorted ts

-- All ids are different.
abbrev pub IsNodup : List Ticket → Type 0
IsNodup [] = Unit {0}
IsNodup (t ∷ ts) = (has (ids ts) t.id ≡ false) × IsNodup ts

pub AllGreater-trans :
    (x y : Bytes) (ts : List Ticket) → bytes_lt x y ≡ true → AllGreater y ts → AllGreater x ts
AllGreater-trans x y [] l h = tt
AllGreater-trans x y (t ∷ ts) l h = (bytes_lt_trans x y t.id l h.0, AllGreater-trans x y ts l h.1)

pub ascending-IsSorted : (ts : List Ticket) → ascending (ids ts) ≡ true → IsSorted ts
ascending-IsSorted [] h = tt
ascending-IsSorted (t ∷ ts) h = (
  greater ts (ascending-lt t.id (ids ts) h),
  ascending-IsSorted ts (ascending_tail t.id (ids ts) h),
)
  where
    greater : (us : List Ticket) → All (λ y. bytes_lt t.id y ≡ true) (ids us) → AllGreater t.id us
    greater [] g = tt
    greater (u ∷ us) g = (g.0, greater us g.1)

pub IsSorted-ascending : (ts : List Ticket) → IsSorted ts → ascending (ids ts) ≡ true
unfolding ascending
IsSorted-ascending [] h = refl
IsSorted-ascending (t ∷ []) h = refl
IsSorted-ascending (t ∷ u ∷ us) h = ground (arith, h.0.0, IsSorted-ascending (u ∷ us) h.1)

pub IsSorted-IsNodup : (ts : List Ticket) → IsSorted ts → IsNodup ts
IsSorted-IsNodup [] h = tt
IsSorted-IsNodup (t ∷ ts) h =
    (has-ascending t.id (ids ts) (IsSorted-ascending (t ∷ ts) h), IsSorted-IsNodup ts h.1)

-- The ids of a list with one more.
pub has-insert :
    (t : Ticket) (us : List Ticket) (r : Bytes)
    → has (ids (insert t us)) r ≡ bytes_eq t.id r || has (ids us) r
has-insert t [] r = refl
has-insert t (u ∷ us) r = elim (Bool-cases (bytes_lt u.id t.id)) [
  | inl l ↦ rw l (ground (arith, has-insert t us r))
  | inr g ↦ rw g refl
]

pub has-sort : (ts : List Ticket) (r : Bytes) → has (ids (sort ts)) r ≡ has (ids ts) r
unfolding sort
has-sort [] r = refl
has-sort (t ∷ ts) r = ground (arith, has-insert t (sort ts) r, has-sort ts r)

pub has-ids-append :
    (ts us : List Ticket) (r : Bytes) → has (ids (ts ++ us)) r ≡ has (ids ts) r || has (ids us) r
has-ids-append [] us r = refl
has-ids-append (t ∷ ts) us r = ground (arith, has-ids-append ts us r)

AllGreater-insert :
    (x : Bytes) (t : Ticket) (us : List Ticket)
    → bytes_lt x t.id ≡ true
    → AllGreater x us
    → AllGreater x (insert t us)
AllGreater-insert x t [] l h = (l, tt)
AllGreater-insert x t (u ∷ us) l h = elim (Bool-cases (bytes_lt u.id t.id)) [
  | inl lt ↦ rw lt (h.0, AllGreater-insert x t us l h.1)
  | inr ge ↦ rw ge (l, h)
]

insert-IsSorted :
    (t : Ticket) (us : List Ticket)
    → has (ids us) t.id ≡ false
    → IsSorted us
    → IsSorted (insert t us)
insert-IsSorted t [] fresh h = (tt, tt)
insert-IsSorted t (u ∷ us) fresh h = elim (Bool-cases (bytes_lt u.id t.id)) [
  | inl lt ↦ rw lt (AllGreater-insert u.id t us lt h.0, insert-IsSorted t us (ground arith) h.1)
  | inr ge ↦ rw ge ((less ge, AllGreater-trans t.id u.id us (less ge) h.0), h)
]
  where
    less : bytes_lt u.id t.id ≡ false → bytes_lt t.id u.id ≡ true
    less ge = elim (bytes_total t.id u.id) [
      | inl l ↦ l
      | inr (inr g) ↦ absurd (cc)
      | inr (inl e) ↦ absurd (cc (bytes_eq_refl t.id))
    ]

-- Different ids are sorted strictly.
pub sort-IsSorted : (ts : List Ticket) → IsNodup ts → IsSorted (sort ts)
unfolding sort
sort-IsSorted [] h = tt
sort-IsSorted (t ∷ ts) h =
    insert-IsSorted t (sort ts) (has-sort ts t.id ∙ h.0) (sort-IsSorted ts h.1)

-- Two lists with different ids and none in common.
pub append-IsNodup :
    (ts us : List Ticket)
    → IsNodup ts
    → IsNodup us
    → All (λ (t : Ticket). has (ids us) t.id ≡ false) ts
    → IsNodup (ts ++ us)
append-IsNodup [] us ht hu apart = hu
append-IsNodup (t ∷ ts) us ht hu apart =
    (ground (arith, has-ids-append ts us t.id, ht.0, apart.0), append-IsNodup ts us ht.1 hu apart.1)

-- The smallest of a sorted list.
AllGreater-take :
    (x : Bytes) (n : ℕ) (ts : List Ticket) → AllGreater x ts → AllGreater x (take n ts)
AllGreater-take x zero ts h = tt
AllGreater-take x (suc n) [] h = tt
AllGreater-take x (suc n) (t ∷ ts) h = (h.0, AllGreater-take x n ts h.1)

pub take-IsSorted : (n : ℕ) (ts : List Ticket) → IsSorted ts → IsSorted (take n ts)
take-IsSorted zero ts h = tt
take-IsSorted (suc n) [] h = tt
take-IsSorted (suc n) (t ∷ ts) h = (AllGreater-take t.id n ts h.0, take-IsSorted n ts h.1)
