-- ===== src/Pvm/Memory.antt =====
-- The paged memory of packages/jam-pvm-base/src/pvm-base-memory.ts and
-- packages/jam-pvm-js/src/pvm-memory.ts. The maps from page numbers are functions.
pub mod Invariant
pub mod Growth
pub mod Range
use tsjam.Prelude.{ℕ, zero, suc, ◌+◌, ◌-◌, ◌*◌, ◌/◌, ◌%◌, ◌^◌, Bool, true, false}
use tsjam.Prelude.{Option, none, some, ◌>>=◌, List, [], ◌∷◌, ◌++◌, length, take, drop, replicate}
use tsjam.Prelude.{ltb, leb, ◌==◌, if◌then◌else◌}
use mathlib.Core.Option

-- `Zp`: packages/jam-constants/src/index.ts.
abbrev pub zp : ℕ
zp = 2 ^ 12

-- `PVMMemoryAccessKind`; `null` is no entry of the map, it only asks `upsert_acl` to delete one.
pub data AccessKind : Type 0 where
  read write null : AccessKind

pub record PvmHeap : Type 0 where
  pub start : ℕ
  pub end : ℕ
  pub pointer : ℕ

pub record PvmMemory : Type 0 where
  pub memory_content : ℕ → Option (List ℕ)
  pub acl : ℕ → Option AccessKind
  pub heap : PvmHeap

-- `PVMMemDump`.
pub record MemDump : Type 0 where
  pub pages : ℕ → Option (AccessKind × List ℕ)
  pub heap : PvmHeap

-- The constructor of `PVMJSMemory`.
unfoldable pub new_memory : MemDump → PvmMemory
new_memory dump = record {
  memory_content = λ page. Option.map (λ (p : AccessKind × List ℕ). p.1) (dump.pages page);
  acl = λ page. Option.map (λ (p : AccessKind × List ℕ). p.0) (dump.pages page);
  heap = dump.heap;
}

-- `Map.set` and `Map.delete`.
abbrev pub map_set {ℓ} : {A : Type ℓ} → (ℕ → Option A) → ℕ → A → ℕ → Option A
map_set m k v j = if j == k then some v else m j

abbrev pub map_delete {ℓ} : {A : Type ℓ} → (ℕ → Option A) → ℕ → ℕ → Option A
map_delete m k j = if j == k then none else m j

-- `toSafeMemoryAddress(rawAddr)`.
unfoldable pub to_safe_memory_address : ℕ → ℕ
to_safe_memory_address raw_addr = raw_addr % 2 ^ 32

-- `#locationFromAddress(address)`.
unfoldable pub page_of : ℕ → ℕ
page_of address = address / zp

unfoldable pub offset_of : ℕ → ℕ
offset_of address = address % zp

abbrev pub min_ℕ : ℕ → ℕ → ℕ
min_ℕ a b = if leb a b then a else b

-- The loop of `#pagesInRange`: `last` is the page pushed last. A round takes a page, so `remaining`
-- rounds are enough.
unfoldable pub pages_loop : ℕ → ℕ → ℕ → List ℕ
pages_loop zero last remaining = []
pages_loop (suc fuel) last remaining =
    let next = (last + 1) % (2 ^ 32 / zp) in
    let rest = pages_loop fuel next (remaining - zp) in if ltb 0 remaining then next ∷ rest else []

unfoldable pub pages_in_range : ℕ → ℕ → List ℕ
unfolding pages_loop page_of offset_of
pages_in_range address len =
    if len == 0
    then []
    else page_of address ∷ pages_loop len (page_of address) (len - (zp - offset_of address))

unfoldable pub first_without : (ℕ → Bool) → List ℕ → Option ℕ
first_without allowed [] = none
first_without allowed (page ∷ pages) =
    if allowed page then first_without allowed pages else some (page * zp)

-- `this.acl.has(page)`.
abbrev pub has_acl : PvmMemory → ℕ → Bool
has_acl mem page = elim (mem.acl page) [ none ↦ false | some k ↦ true ]

-- `this.acl.get(page) === PVMMemoryAccessKind.Write`.
abbrev pub is_write : Option AccessKind → Bool
is_write none = false
is_write (some read) = false
is_write (some write) = true
is_write (some null) = false

unfoldable pub first_unreadable : PvmMemory → ℕ → ℕ → Option ℕ
unfolding first_without pages_in_range
first_unreadable mem address len = first_without (has_acl mem) (pages_in_range address len)

unfoldable pub first_unwriteable : PvmMemory → ℕ → ℕ → Option ℕ
unfolding first_without pages_in_range
first_unwriteable mem address len =
    first_without (λ page. is_write (mem.acl page)) (pages_in_range address len)

abbrev pub is_none {ℓ} : {A : Type ℓ} → Option A → Bool
is_none none = true
is_none (some a) = false

unfoldable pub can_read : PvmMemory → ℕ → ℕ → Bool
unfolding first_unreadable
can_read mem address len = is_none (first_unreadable mem address len)

unfoldable pub can_write : PvmMemory → ℕ → ℕ → Bool
unfolding first_unwriteable
can_write mem address len = is_none (first_unwriteable mem address len)

-- `memory.set(src, offset)` on one page: a range error if it does not fit.
unfoldable pub set_at : List ℕ → List ℕ → ℕ → Option (List ℕ)
set_at memory src offset =
    if leb (offset + length src) (length memory)
    then some (take offset memory ++ (src ++ drop (offset + length src) memory))
    else none

-- The loop of `writeAt`, over what is left of `buf`; `none` is a type error, on a page with no
-- content, or a range error. A round writes a byte at least, so `length buf` rounds are enough.
unfoldable pub write_loop : ℕ → ℕ → List ℕ → PvmMemory → Option PvmMemory
unfolding set_at page_of offset_of
write_loop fuel address [] mem = some mem
write_loop zero address (b ∷ bs) mem = none
write_loop (suc fuel) address (b ∷ bs) mem = do
  let remaining = length (b ∷ bs)
  let bytes_to_write = min_ℕ remaining (zp - offset_of address)
  memory ← mem.memory_content (page_of address)
  memory' ← set_at memory (take bytes_to_write (b ∷ bs)) (offset_of address)
  write_loop fuel (address + bytes_to_write) (drop bytes_to_write (b ∷ bs))
      (record mem { memory_content = map_set mem.memory_content (page_of address) memory' })

unfoldable pub write_at : PvmMemory → ℕ → List ℕ → Option PvmMemory
unfolding write_loop
write_at mem address buf = write_loop (length buf) address buf mem

-- `readInto(address, buf)`: what `buf` holds afterwards. `copy` fills as much of it as the page has.
unfoldable pub read_loop : PvmMemory → ℕ → ℕ → List ℕ → Option (List ℕ)
unfolding page_of offset_of to_safe_memory_address
read_loop mem fuel address [] = some []
read_loop mem zero address (b ∷ bs) = none
read_loop mem (suc fuel) address (b ∷ bs) = do
  memory ← mem.memory_content (page_of address)
  let bytes_to_read = min_ℕ (length (b ∷ bs)) (zp - offset_of address)
  let copied = take bytes_to_read (drop (offset_of address) memory)
  let front = copied ++ drop (length copied) (take bytes_to_read (b ∷ bs))
  rest ←
      read_loop mem fuel (to_safe_memory_address (address + bytes_to_read))
        (drop bytes_to_read (b ∷ bs))
  some (front ++ rest)

unfoldable pub read_into : PvmMemory → ℕ → List ℕ → Option (List ℕ)
unfolding read_loop
read_into mem address buf = read_loop mem (length buf) address buf

-- `upsertACL(page, kind)`: to delete an entry that is not there fails the assertion.
upsert : PvmMemory → ℕ → Option AccessKind → AccessKind → Option PvmMemory
upsert mem page none null = none
upsert mem page none read = some (record mem { acl = map_set mem.acl page read })
upsert mem page none write = some (record mem { acl = map_set mem.acl page write })
upsert mem page (some k) null = some (record mem { acl = map_delete mem.acl page })
upsert mem page (some k) read = some (record mem { acl = map_set mem.acl page read })
upsert mem page (some k) write = some (record mem { acl = map_set mem.acl page write })

unfoldable pub upsert_acl : PvmMemory → ℕ → AccessKind → Option PvmMemory
unfolding upsert
upsert_acl mem page kind = upsert mem page (mem.acl page) kind

-- `Math.ceil(size / Zp)`.
abbrev pub pages_for : ℕ → ℕ
pages_for size = (size + (zp - 1)) / zp

-- The loop of `sbrk`: the rounds 0 to `cnt - 1`, round `i` giving page `first + i` fresh content.
unfoldable pub alloc_pages : ℕ → ℕ → PvmMemory → PvmMemory
alloc_pages zero first mem = mem
alloc_pages (suc i) first mem =
    let mem' = alloc_pages i first mem in
    record mem' {
      acl = map_set mem'.acl (first + i) write;
      memory_content = map_set mem'.memory_content (first + i) (replicate zp 0);
    }

-- `sbrk(size)`. The end of the heap is a multiple of `zp`, so `heap.end / Zp` is a page number.
unfoldable pub sbrk : PvmMemory → ℕ → PvmMemory × ℕ
unfolding alloc_pages
sbrk mem size =
    let old_pointer = mem.heap.pointer in
    let grown =
      if leb mem.heap.end (old_pointer + size)
      then record (alloc_pages (pages_for size) (mem.heap.end / zp) mem) {
        heap = record mem.heap { end = mem.heap.end + pages_for size * zp };
      }
      else mem in
    (record grown { heap = record grown.heap { pointer = old_pointer + size } }, old_pointer)
