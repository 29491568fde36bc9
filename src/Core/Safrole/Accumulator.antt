-- ===== src/Core/Safrole/Accumulator.antt =====
-- The accumulator of tickets is the sorted list of the smallest ids submitted in the epoch.
use tsjam.Prelude.{
  ℕ, zero, suc, ◌≤◌, ◌≡◌, refl, sym, ◌∙◌, arith, inl, inr, ◌⊎◌, Bool, true, false, List, [], ◌∷◌,
  ◌++◌, map, All, any, every, if◌then◌else◌, Bool-cases, take, length, length-take, subst,
}
use tsjam.Prelude.Result.{ok, check_passed, ok_eq}
use tsjam.Core.Bytes.{Bytes, bytes_lt, bytes_eq, bytes_eq→eq}
use tsjam.Core.Constants.{Constants}
use tsjam.Core.IdentitySet.{has, from_values, has-from_values}
use tsjam.Core.Slot.{is_newer_era}
use tsjam.Core.Disputes.Verdicts.{ascending}
use tsjam.Core.Safrole.Tickets.{
  Ticket, TicketProof, ids, sort, new_tickets, ticket_of, accumulated, to_posterior,
  ticket_not_in_posterior_gamma_a,
}
use tsjam.Core.Safrole.Sorted.{
  AllGreater, IsSorted, IsNodup, ascending-IsSorted, IsSorted-IsNodup, has-sort, sort-IsSorted,
  append-IsNodup, take-IsSorted,
}

-- What an accumulator of an epoch is.
abbrev pub IsGammaA : Constants → List Ticket → Type 0
IsGammaA c ts = IsSorted ts × (length ts ≤ c.epoch_length)

none_there :
    (s : List Bytes) (ts : List Ticket)
    → any (λ (t : Ticket). has (from_values s) t.id) ts ≡ false
    → All (λ (t : Ticket). has s t.id ≡ false) ts
none_there s [] h = tt
none_there s (t ∷ ts) h = (ground (arith, has-from_values t.id s), none_there s ts (ground arith))

missing_from_empty : (ts : List Ticket) → All (λ (t : Ticket). has [] t.id ≡ false) ts
missing_from_empty [] = tt
missing_from_empty (t ∷ ts) = (refl, missing_from_empty ts)

module _ (c : Constants) (verify : Bytes → Bytes → Bytes → Bool) (vrf_output : Bytes → Bytes) where
  -- The tickets that pass are strictly ascending, and none is in the accumulator.
  new_tickets-fresh :
      (p_tau : ℕ) (root eta_2 : Bytes) (gamma_a : List Ticket) (els : List TicketProof)
      (n : List Ticket)
      → new_tickets c verify vrf_output p_tau root eta_2 gamma_a els ≡ ok n
      → (ascending (ids n) ≡ true) × All (λ (t : Ticket). has (ids gamma_a) t.id ≡ false) n
  unfolding new_tickets ascending
  new_tickets-fresh p_tau root eta_2 gamma_a [] n h =
      subst
        (λ m. (ascending (ids m) ≡ true) × All (λ (t : Ticket). has (ids gamma_a) t.id ≡ false) m)
        (ok_eq (ok []) refl h) (refl, tt)
  new_tickets-fresh p_tau root eta_2 gamma_a (e ∷ es) n h =
      let m = map (ticket_of c verify vrf_output) (e ∷ es) in
      let same : m ≡ n = ground arith in
      let asc : ascending (ids m) ≡ true = ground arith in
      let apart : any (λ (x : Ticket). has (from_values (ids gamma_a)) x.id) m ≡ false =
        ground arith in
      subst
        (λ m. (ascending (ids m) ≡ true) × All (λ (t : Ticket). has (ids gamma_a) t.id ≡ false) m)
        same (asc, none_there (ids gamma_a) m apart)

-- Every ticket of a list comes before an id.
abbrev pub AllLess : List Ticket → Bytes → Type 0
AllLess ts r = All (λ (t : Ticket). bytes_lt t.id r ≡ true) ts

-- The tickets that compete for the accumulator: those of the block, and those of the accumulator
-- unless the block opens an epoch.
abbrev pub pool : Constants → ℕ → ℕ → List Ticket → List Ticket → List Ticket
pool c slot p_tau gamma_a n = n ++ (if is_newer_era c p_tau slot then [] else gamma_a)

-- The first tickets of a pool by their ids, as many as an epoch has slots.
abbrev pub IsBest : Constants → List Ticket → List Ticket → Type 0
IsBest c competing ts =
    IsGammaA c ts
    × ((r : Bytes) → has (ids ts) r ≡ true → has (ids competing) r ≡ true)
    × ((r : Bytes)
        → has (ids competing) r ≡ true
        → (has (ids ts) r ≡ true) ⊎ ((length ts ≡ c.epoch_length) × AllLess ts r))

module _ (c : Constants) where
  pool-IsNodup :
      (slot p_tau : ℕ) (gamma_a n : List Ticket)
      → IsGammaA c gamma_a
      → ascending (ids n) ≡ true
      → All (λ (t : Ticket). has (ids gamma_a) t.id ≡ false) n
      → IsNodup (pool c slot p_tau gamma_a n)
  pool-IsNodup slot p_tau gamma_a n g asc fresh = elim (Bool-cases (is_newer_era c p_tau slot)) [
    | inl newer ↦ rw newer (append-IsNodup n [] apart tt (missing_from_empty n))
    | inr same ↦ rw same (append-IsNodup n gamma_a apart (IsSorted-IsNodup gamma_a g.0) fresh)
  ]
    where
      apart : IsNodup n
      apart = IsSorted-IsNodup n (ascending-IsSorted n asc)

  accumulated-IsGammaA :
      (slot p_tau : ℕ) (gamma_a n : List Ticket)
      → IsGammaA c gamma_a
      → ascending (ids n) ≡ true
      → All (λ (t : Ticket). has (ids gamma_a) t.id ≡ false) n
      → IsGammaA c (accumulated c slot p_tau gamma_a n)
  unfolding accumulated
  accumulated-IsGammaA slot p_tau gamma_a n g asc fresh = (
    take-IsSorted c.epoch_length (sort (pool c slot p_tau gamma_a n)) (
        sort-IsSorted (pool c slot p_tau gamma_a n)
          (pool-IsNodup slot p_tau gamma_a n g asc fresh)),
    omega (arith, length-take c.epoch_length (sort (pool c slot p_tau gamma_a n))),
  )

  -- What a ticket accumulator that is accepted is.
  to_posterior-eq-ok :
      (slot p_tau : ℕ) (gamma_a n p_gamma_a : List Ticket)
      → to_posterior c slot p_tau gamma_a n ≡ ok p_gamma_a
      → (accumulated c slot p_tau gamma_a n ≡ p_gamma_a)
        × (every (λ x. has (from_values (ids p_gamma_a)) x.id) n ≡ true)
  unfolding to_posterior
  to_posterior-eq-ok slot p_tau gamma_a n p_gamma_a h =
      let p = accumulated c slot p_tau gamma_a n in
      let parts =
        check_passed (every (λ x. has (from_values (ids p)) x.id) n) ticket_not_in_posterior_gamma_a
          (ok p) h in
      let same = ok_eq (ok p) refl parts.1 in
      (same, subst (λ q. every (λ x. has (from_values (ids q)) x.id) n ≡ true) same parts.0)

-- An id of a sorted list is among the first ones, or all of those come before it.
take_least :
    (n : ℕ) (ts : List Ticket) (r : Bytes)
    → IsSorted ts
    → has (ids ts) r ≡ true
    → (has (ids (take n ts)) r ≡ true) ⊎ ((length (take n ts) ≡ n) × AllLess (take n ts) r)
take_least zero ts r s h = inr (refl, tt)
take_least (suc n) [] r s h = inl h
take_least (suc n) (t ∷ ts) r s h = elim (Bool-cases (bytes_eq t.id r)) [
  | inl same ↦ inl (rw same refl)
  | inr differs ↦
      let later : has (ids ts) r ≡ true = ground arith in
      elim (take_least n ts r s.1 later) [
        | inl found ↦ inl (ground arith)
        | inr (full, less) ↦ inr (omega (arith, full), (least ts s.0 later, less))
      ]
]
  where
    least : (us : List Ticket) → AllGreater t.id us → has (ids us) r ≡ true → bytes_lt t.id r ≡ true
    least [] g e = cc
    least (u ∷ us) g e = elim (Bool-cases (bytes_eq u.id r)) [
      | inl same ↦ subst (λ b. bytes_lt t.id b ≡ true) (bytes_eq→eq u.id r same) g.0
      | inr differs ↦ least us g.1 (ground arith)
    ]

-- The ids removed by a cut are of the list.
has-take :
    (n : ℕ) (ts : List Ticket) (r : Bytes) → has (ids (take n ts)) r ≡ true → has (ids ts) r ≡ true
has-take zero ts r h = cc
has-take (suc n) [] r h = h
has-take (suc n) (t ∷ ts) r h = elim (Bool-cases (bytes_eq t.id r)) [
  | inl same ↦ rw same refl
  | inr differs ↦ ground (arith, has-take n ts r)
]

module _ (c : Constants) (verify : Bytes → Bytes → Bytes → Bool) (vrf_output : Bytes → Bytes) where
  module _ (slot p_tau : ℕ) (root eta_2 : Bytes) (gamma_a n p_gamma_a : List Ticket)
      (elements : List TicketProof) where
    -- The accumulator stays strictly sorted by id and within the epoch's length, for the tickets that
    -- `newTickets` lets pass.
    pub to_posterior-IsGammaA :
        IsGammaA c gamma_a
        → new_tickets c verify vrf_output p_tau root eta_2 gamma_a elements ≡ ok n
        → to_posterior c slot p_tau gamma_a n ≡ ok p_gamma_a
        → IsGammaA c p_gamma_a
    to_posterior-IsGammaA g h e =
        let passed = new_tickets-fresh c verify vrf_output p_tau root eta_2 gamma_a elements n h in
        subst (IsGammaA c) (to_posterior-eq-ok c slot p_tau gamma_a n p_gamma_a e).0
          (accumulated-IsGammaA c slot p_tau gamma_a n g passed.0 passed.1)

    -- The posterior accumulator is the best of the tickets that compete: only they are in it, and one
    -- that is left out comes after all that are in it, and these fill the epoch.
    pub to_posterior-IsBest :
        IsGammaA c gamma_a
        → new_tickets c verify vrf_output p_tau root eta_2 gamma_a elements ≡ ok n
        → to_posterior c slot p_tau gamma_a n ≡ ok p_gamma_a
        → IsBest c (pool c slot p_tau gamma_a n) p_gamma_a
    unfolding accumulated
    to_posterior-IsBest g h e =
        subst (IsBest c competing) (to_posterior-eq-ok c slot p_tau gamma_a n p_gamma_a e).0 (
          accumulated-IsGammaA c slot p_tau gamma_a n g passed.0 passed.1,
          (λ r in_it.
              sym (has-sort competing r) ∙ has-take c.epoch_length (sort competing) r in_it),
          (λ r there.
              take_least c.epoch_length (sort competing) r
                (sort-IsSorted competing (pool-IsNodup c slot p_tau gamma_a n g passed.0 passed.1))
                (has-sort competing r ∙ there)),
        )
      where
        competing : List Ticket
        competing = pool c slot p_tau gamma_a n

        passed : (ascending (ids n) ≡ true) × All (λ (t : Ticket). has (ids gamma_a) t.id ≡ false) n
        passed = new_tickets-fresh c verify vrf_output p_tau root eta_2 gamma_a elements n h
