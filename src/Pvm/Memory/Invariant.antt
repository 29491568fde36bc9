-- ===== src/Pvm/Memory/Invariant.antt =====
-- The pages of the memory are whole pages of bytes, and every page with an access kind is there.
use tsjam.Prelude.{ℕ, zero, suc, ◌+◌, ◌-◌, ◌/◌, ◌≤◌, ◌≡◌, refl, arith}
use tsjam.Prelude.{none, some, List, [], ◌∷◌, ◌++◌, length, take, drop, replicate}
use tsjam.Prelude.{length-append, length-take, length-drop, length-replicate, leb, leb→le, ◌==◌}
use tsjam.Prelude.{>>=-eq-some, All-append, All-take, All-drop, All-replicate, Bool-cases}
use tsjam.Prelude.{subst, some_eq, inl, inr}
use tsjam.Codec.Buffer.{IsByte, IsBytes}
use tsjam.Pvm.Memory.{
  PvmMemory, zp, page_of, offset_of, min_ℕ, map_set, set_at, write_loop, write_at,
}
use tsjam.Pvm.Memory.{read_loop, read_into, to_safe_memory_address, alloc_pages, sbrk, pages_for}
use tsjam.Pvm.Memory.{AccessKind}

abbrev pub IsPage : List ℕ → Type 0
IsPage c = IsBytes c × (length c ≡ zp)

pub record IsMemory (mem : PvmMemory) : Type 0 where
  pub whole : (page : ℕ) (c : List ℕ) → mem.memory_content page ≡ some c → IsPage c
  pub backed :
      (page : ℕ) (k : AccessKind)
      → mem.acl page ≡ some k
      → (c : List ℕ) × (mem.memory_content page ≡ some c)

-- What a write of bytes into a page gives.
pub set_at-IsPage :
    (memory src : List ℕ) (offset : ℕ) (c : List ℕ)
    → IsPage memory
    → IsBytes src
    → set_at memory src offset ≡ some c
    → IsPage c
unfolding set_at
set_at-IsPage memory src offset c m h e =
    elim (Bool-cases (leb (offset + length src) (length memory))) [
      | inl fits ↦ subst IsPage (some_eq (rw fits at e)) (bytes, size (leb→le _ _ fits))
      | inr over ↦ absurd (false_some (rw over at e))
    ]
  where
    behind : List ℕ
    behind = drop (offset + length src) memory

    bytes : IsBytes (take offset memory ++ (src ++ behind))
    bytes =
        All-append IsByte (take offset memory) (src ++ behind) (All-take IsByte offset memory m.0)
          (All-append IsByte src behind h (All-drop IsByte (offset + length src) memory m.0))

    size : offset + length src ≤ length memory → length (take offset memory ++ (src ++ behind)) ≡ zp
    size fits = omega (
      arith,
      m.1,
      length-append (take offset memory) (src ++ behind),
      length-append src behind,
      length-take offset memory,
      length-drop (offset + length src) memory,
    )

    false_some : none ≡ some c → ⊥
    false_some p = cc

zero-IsPage : IsPage (replicate zp 0)
zero-IsPage = (All-replicate IsByte zp 0 (omega arith), length-replicate {A = ℕ} zp 0)

-- A page set to whole content keeps the memory whole.
pub map_set-IsMemory :
    (mem : PvmMemory) (page : ℕ) (c : List ℕ)
    → IsMemory mem
    → IsPage c
    → IsMemory (record mem { memory_content = map_set mem.memory_content page c })
map_set-IsMemory mem page c m h = record {
  whole = λ j d e. elim (Bool-cases (j == page)) [
    | inl here ↦ subst IsPage (some_eq (rw here at e)) h
    | inr other ↦ m.whole j d (rw other at e)
  ];
  backed = λ j k e. elim (Bool-cases (j == page)) [
    | inl here ↦ (c, rw here)
    | inr other ↦ let (d, f) = m.backed j k e in (d, rw other f)
  ];
}

pub write_loop-IsMemory :
    (fuel address : ℕ) (buf : List ℕ) (mem mem' : PvmMemory)
    → IsMemory mem
    → IsBytes buf
    → write_loop fuel address buf mem ≡ some mem'
    → IsMemory mem'
unfolding write_loop
write_loop-IsMemory fuel address [] mem mem' m h e = subst IsMemory (some_eq e) m
write_loop-IsMemory zero address (b ∷ bs) mem mem' m h e = cc
write_loop-IsMemory (suc fuel) address (b ∷ bs) mem mem' m h e =
    let n = min_ℕ (length (b ∷ bs)) (zp - offset_of address) in
    let (c, content, rest) = >>=-eq-some (mem.memory_content (page_of address)) _ e in
    let (c', stored, more) = >>=-eq-some (set_at c (take n (b ∷ bs)) (offset_of address)) _ rest in
    let page =
      set_at-IsPage c (take n (b ∷ bs)) (offset_of address) c' (m.whole (page_of address) c content)
        (All-take IsByte n (b ∷ bs) h) stored in
    write_loop-IsMemory fuel (address + n) (drop n (b ∷ bs)) _ mem'
      (map_set-IsMemory mem (page_of address) c' m page) (All-drop IsByte n (b ∷ bs) h) more

-- A write of bytes keeps the memory whole.
pub write_at-IsMemory :
    (mem : PvmMemory) (address : ℕ) (buf : List ℕ) (mem' : PvmMemory)
    → IsMemory mem
    → IsBytes buf
    → write_at mem address buf ≡ some mem'
    → IsMemory mem'
unfolding write_at
write_at-IsMemory mem address buf mem' m h e =
    write_loop-IsMemory (length buf) address buf mem mem' m h e

pub min_ℕ-le : (a b : ℕ) → (min_ℕ a b ≤ a) × (min_ℕ a b ≤ b)
min_ℕ-le a b = ground arith

-- `n` elements of `ys`, the first of them overwritten from `xs`, are `n` elements.
length-filled :
    (n : ℕ) (xs ys : List ℕ)
    → n ≤ length ys
    → length (take n xs ++ drop (length (take n xs)) (take n ys)) ≡ n
length-filled n xs ys h = omega (
  arith,
  length-append (take n xs) (drop (length (take n xs)) (take n ys)),
  length-drop (length (take n xs)) (take n ys),
  length-take n xs,
  length-take n ys,
)

read_loop-IsBytes :
    (mem : PvmMemory) (fuel address : ℕ) (buf out : List ℕ)
    → IsMemory mem
    → IsBytes buf
    → read_loop mem fuel address buf ≡ some out
    → IsBytes out × (length out ≡ length buf)
unfolding read_loop
read_loop-IsBytes mem fuel address [] out m h e =
    subst (λ o. IsBytes o × (length o ≡ 0)) (some_eq e) (tt, refl)
read_loop-IsBytes mem zero address (b ∷ bs) out m h e = cc
read_loop-IsBytes mem (suc fuel) address (b ∷ bs) out m h e =
    let n = min_ℕ (length (b ∷ bs)) (zp - offset_of address) in
    let (c, content, rest) = >>=-eq-some (mem.memory_content (page_of address)) _ e in
    let copied = take n (drop (offset_of address) c) in
    let front = copied ++ drop (length copied) (take n (b ∷ bs)) in
    let (back, read, eq) =
      >>=-eq-some (read_loop mem fuel (to_safe_memory_address (address + n)) (drop n (b ∷ bs))) _
        rest in
    let ih =
      read_loop-IsBytes mem fuel (to_safe_memory_address (address + n)) (drop n (b ∷ bs)) back m
        (All-drop IsByte n (b ∷ bs) h) read in
    subst (λ o. IsBytes o × (length o ≡ length (b ∷ bs))) (some_eq eq)
      (
        All-append IsByte front back
            (All-append IsByte copied (drop (length copied) (take n (b ∷ bs)))
              (All-take IsByte n _ (All-drop IsByte (offset_of address) c (m.whole _ c content).0))
              (All-drop IsByte (length copied) _ (All-take IsByte n (b ∷ bs) h)))
            ih.0,
        omega (
          arith,
          ih.1,
          length-append front back,
          length-filled n (drop (offset_of address) c) (b ∷ bs) (min_ℕ-le _ _).0,
          length-drop n (b ∷ bs),
          min_ℕ-le (length (b ∷ bs)) (zp - offset_of address),
        ),
      )

-- What is read are as many bytes as were asked for.
pub read_into-IsBytes :
    (mem : PvmMemory) (address : ℕ) (buf out : List ℕ)
    → IsMemory mem
    → IsBytes buf
    → read_into mem address buf ≡ some out
    → IsBytes out × (length out ≡ length buf)
unfolding read_into
read_into-IsBytes mem address buf out m h e =
    read_loop-IsBytes mem (length buf) address buf out m h e

alloc_pages-IsMemory :
    (n first : ℕ) (mem : PvmMemory) → IsMemory mem → IsMemory (alloc_pages n first mem)
unfolding alloc_pages
alloc_pages-IsMemory zero first mem m = m
alloc_pages-IsMemory (suc i) first mem m =
    let m' = alloc_pages-IsMemory i first mem m in
    let fresh =
      map_set-IsMemory (alloc_pages i first mem) (first + i) (replicate zp 0) m' zero-IsPage in
    record {
      whole = fresh.whole;
      backed = λ j k e. elim (Bool-cases (j == first + i)) [
        | inl here ↦ (replicate zp 0, rw here)
        | inr other ↦ fresh.backed j k (rw other at e)
      ];
    }

-- `sbrk` keeps the memory whole.
pub sbrk-IsMemory : (mem : PvmMemory) (size : ℕ) → IsMemory mem → IsMemory (sbrk mem size).0
unfolding sbrk
sbrk-IsMemory mem size m = elim (Bool-cases (leb mem.heap.end (mem.heap.pointer + size))) [
  | inl grows ↦
      let m' = alloc_pages-IsMemory (pages_for size) (mem.heap.end / zp) mem m in
      rw grows (record { whole = m'.whole; backed = m'.backed })
  | inr fits ↦ rw fits (record { whole = m.whole; backed = m.backed })
]
