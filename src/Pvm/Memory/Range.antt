-- ===== src/Pvm/Memory/Range.antt =====
-- The pages that a range of addresses touches: packages/jam-pvm-base/src/pvm-base-memory.ts.
use tsjam.Prelude.{
  ℕ, zero, suc, ◌+◌, ◌-◌, ◌/◌, ◌%◌, ◌^◌, ◌<◌, ◌≤◌, ◌≡◌, refl, arith, ap, ◌∙◌, inl, inr, Option,
  some, none, Bool, true, false,
}
use tsjam.Prelude.{ltb, ◌==◌, Bool-cases, List, ◌∷◌}
use native.Mathlib.Decide.{dec_lt}
use tsjam.Pvm.Memory.{
  PvmMemory, zp, page_of, offset_of, pages_loop, pages_in_range, first_without, can_read, can_write,
  first_unreadable, first_unwriteable, has_acl, is_write, is_none,
}

head-first_without :
    (p : ℕ → Bool) (page : ℕ) (pages : List ℕ)
    → first_without p (page ∷ pages) ≡ none
    → (p page ≡ true) × (first_without p pages ≡ none)
unfolding first_without
head-first_without p page pages e = elim (Bool-cases (p page)) [
  | inl t ↦ (t, rw t at e)
  | inr f ↦ absurd (some_none (rw f at e))
]
  where
    some_none : {n : ℕ} → some n ≡ none → ⊥
    some_none q = cc

module _ (p : ℕ → Bool) where
  pages_loop-covers :
      (fuel last remaining i : ℕ)
      → remaining ≤ fuel
      → i < remaining
      → first_without p (pages_loop fuel last remaining) ≡ none
      → p ((last + 1 + i / zp) % 2 ^ 20) ≡ true
  unfolding pages_loop
  pages_loop-covers zero last remaining i h q e = absurd (omega arith)
  pages_loop-covers (suc fuel) last remaining i h q e =
      let next = (last + 1) % 2 ^ 20 in
      let rest = pages_loop fuel next (remaining - zp) in
      let more : ltb 0 remaining ≡ true = ground arith in
      let (here, there) = head-first_without p next rest (rw more at e) in
      elim (dec_lt i zp) [
        | yes small ↦
            let same : (last + 1 + i / zp) % 2 ^ 20 ≡ next = omega arith in ap p same ∙ here
        | no large ↦
            let same : (last + 1 + i / zp) % 2 ^ 20 ≡ (next + 1 + (i - zp) / zp) % 2 ^ 20 =
              omega arith in
            ap p same
            ∙ pages_loop-covers fuel next (remaining - zp) (i - zp) (omega arith) (omega arith)
                there
      ]

  pages_in_range-covers :
      (address len i : ℕ)
      → address < 2 ^ 32
      → i < len
      → first_without p (pages_in_range address len) ≡ none
      → p (page_of ((address + i) % 2 ^ 32)) ≡ true
  unfolding pages_in_range page_of offset_of
  pages_in_range-covers address len i a q e =
      let page = address / zp in
      let rest = pages_loop len page (len - (zp - address % zp)) in
      let some_bytes : (len == 0) ≡ false = ground arith in
      let (here, there) = head-first_without p page rest (rw some_bytes at e) in
      elim (dec_lt i (zp - address % zp)) [
        | yes small ↦
            let same : (address + i) % 2 ^ 32 / zp ≡ page = omega arith in ap p same ∙ here
        | no large ↦
            let j = i - (zp - address % zp) in
            let same : (address + i) % 2 ^ 32 / zp ≡ (page + 1 + j / zp) % 2 ^ 20 = omega arith in
            ap p same
            ∙ pages_loop-covers len page (len - (zp - address % zp)) j (omega arith) (omega arith)
                there
      ]

none-is_none : {A : Type 0} (o : Option A) → is_none o ≡ true → o ≡ none
none-is_none none e = refl
none-is_none (some a) e = cc

-- Where `canRead` allows a range that starts at a 32-bit address, the page of each of its addresses,
-- taken modulo 2^32, has an access right.
pub can_read-covers :
    (mem : PvmMemory) (address len i : ℕ)
    → address < 2 ^ 32
    → i < len
    → can_read mem address len ≡ true
    → has_acl mem (page_of ((address + i) % 2 ^ 32)) ≡ true
unfolding can_read first_unreadable
can_read-covers mem address len i a q e =
    pages_in_range-covers (has_acl mem) address len i a q (none-is_none _ e)

-- Where `canWrite` allows a range that starts at a 32-bit address, the page of each of its addresses,
-- taken modulo 2^32, is writeable.
pub can_write-covers :
    (mem : PvmMemory) (address len i : ℕ)
    → address < 2 ^ 32
    → i < len
    → can_write mem address len ≡ true
    → is_write (mem.acl (page_of ((address + i) % 2 ^ 32))) ≡ true
unfolding can_write first_unwriteable
can_write-covers mem address len i a q e =
    pages_in_range-covers (λ page. is_write (mem.acl page)) address len i a q (none-is_none _ e)
