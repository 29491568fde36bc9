-- ===== src/Pvm/Memory/Growth.antt =====
-- What `sbrk` does to the heap: packages/jam-pvm-base/src/pvm-base-memory.ts.
use tsjam.Prelude.{
  ℕ, zero, suc, ◌+◌, ◌*◌, ◌/◌, ◌%◌, ◌<◌, ◌≤◌, ◌≡◌, refl, arith, ◌⊎◌, inl, inr, some, false,
}
use tsjam.Prelude.{replicate, leb, ◌==◌, Bool-cases}
use tsjam.Pvm.Memory.{PvmMemory, write, zp, pages_for, alloc_pages, sbrk}

-- Pages handed out are writeable zeros; the others are as before.
alloc_pages-given :
    (n first : ℕ) (mem : PvmMemory) (page : ℕ)
    → first ≤ page
    → page < first + n
    → ((alloc_pages n first mem).acl page ≡ some write)
      × ((alloc_pages n first mem).memory_content page ≡ some (replicate zp 0))
unfolding alloc_pages
alloc_pages-given zero first mem page p q = absurd (omega arith)
alloc_pages-given (suc n) first mem page p q = elim (Bool-cases (page == first + n)) [
  | inl e ↦ rw e (refl, refl)
  | inr e ↦ rw e (alloc_pages-given n first mem page p (ground arith))
]

alloc_pages-other :
    (n first : ℕ) (mem : PvmMemory) (page : ℕ)
    → (page < first) ⊎ (first + n ≤ page)
    → ((alloc_pages n first mem).acl page ≡ mem.acl page)
      × ((alloc_pages n first mem).memory_content page ≡ mem.memory_content page)
unfolding alloc_pages
alloc_pages-other zero first mem page o = (refl, refl)
alloc_pages-other (suc n) first mem page (inl o) =
    let e : (page == first + n) ≡ false = ground arith in
    rw e (alloc_pages-other n first mem page (inl o))
alloc_pages-other (suc n) first mem page (inr o) =
    let e : (page == first + n) ≡ false = ground arith in
    rw e (alloc_pages-other n first mem page (inr (omega arith)))

-- The heap pointer is within the heap, which ends with a page.
pub record IsHeap (mem : PvmMemory) : Type 0 where
  pub within : mem.heap.pointer ≤ mem.heap.end
  pub aligned : mem.heap.end % zp ≡ 0

-- In a heap whose end is the end of a page and not before its pointer, `sbrk` returns the pointer and
-- moves it by the size, and the new heap has these properties again.
pub sbrk-IsHeap :
    (mem : PvmMemory) (size : ℕ)
    → IsHeap mem
    → ((sbrk mem size).1 ≡ mem.heap.pointer)
      × ((sbrk mem size).0.heap.pointer ≡ mem.heap.pointer + size)
      × IsHeap (sbrk mem size).0
unfolding sbrk
sbrk-IsHeap mem size h = (refl, moved, record { within = within; aligned = aligned })
  where
    moved : (sbrk mem size).0.heap.pointer ≡ mem.heap.pointer + size
    moved = refl

    within : (sbrk mem size).0.heap.pointer ≤ (sbrk mem size).0.heap.end
    within = elim (Bool-cases (leb mem.heap.end (mem.heap.pointer + size))) [
      | inl e ↦ rw e (omega (arith, h.within))
      | inr e ↦ rw e (ground arith)
    ]

    aligned : (sbrk mem size).0.heap.end % zp ≡ 0
    aligned = elim (Bool-cases (leb mem.heap.end (mem.heap.pointer + size))) [
      | inl e ↦ rw e (omega (arith, h.aligned))
      | inr e ↦ rw e h.aligned
    ]

-- In such a heap, a page that begins between the old and the new end of the heap is writeable and
-- zero after `sbrk`.
pub sbrk-new_page :
    (mem : PvmMemory) (size page : ℕ)
    → IsHeap mem
    → mem.heap.end ≤ page * zp
    → page * zp < (sbrk mem size).0.heap.end
    → ((sbrk mem size).0.acl page ≡ some write)
      × ((sbrk mem size).0.memory_content page ≡ some (replicate zp 0))
unfolding sbrk
sbrk-new_page mem size page h p q = elim (Bool-cases (leb mem.heap.end (mem.heap.pointer + size))) [
  | inl e ↦ rw e (
      alloc_pages-given (pages_for size) (mem.heap.end / zp) mem page (omega arith)
        (let q' = rw e at q in omega (arith, h.aligned)))
  | inr e ↦ let q' = rw e at q in absurd (omega arith)
]

-- In such a heap, a page that begins before the old end of the heap, or not before the new one, has
-- the rights and the content after `sbrk` that it had.
pub sbrk-other_page :
    (mem : PvmMemory) (size page : ℕ)
    → IsHeap mem
    → (page * zp < mem.heap.end) ⊎ ((sbrk mem size).0.heap.end ≤ page * zp)
    → ((sbrk mem size).0.acl page ≡ mem.acl page)
      × ((sbrk mem size).0.memory_content page ≡ mem.memory_content page)
unfolding sbrk
sbrk-other_page mem size page h o = elim (Bool-cases (leb mem.heap.end (mem.heap.pointer + size))) [
  | inl e ↦ rw e (
      alloc_pages-other (pages_for size) (mem.heap.end / zp) mem page (elim o [
        | inl p ↦ inl (omega (arith, h.aligned))
        | inr q ↦ let q' = rw e at q in inr (omega (arith, h.aligned))
      ]))
  | inr e ↦ rw e (refl, refl)
]
