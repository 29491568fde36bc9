-- ===== src/Tests/Memory.antt =====
-- The memory on concrete states.
use tsjam.Prelude.{
  ◌+◌, ◌*◌, ◌%◌, ◌^◌, ◌<◌, ◌≡◌, refl, arith, inl, some, none, true, replicate, ltb, if◌then◌else◌,
}
use tsjam.Pvm.Memory.{
  PvmMemory, write, zp, page_of, has_acl, is_write, can_read, can_write, sbrk, first_unreadable,
  first_unwriteable, first_without, pages_in_range,
}
use tsjam.Pvm.Memory.Growth.{IsHeap, sbrk-IsHeap, sbrk-new_page, sbrk-other_page}
use tsjam.Pvm.Memory.Range.{can_read-covers, can_write-covers}

-- Two writeable pages, and a heap that ends with the second one.
abbrev two_pages : PvmMemory
two_pages = record {
  memory_content = λ page. if ltb page 2 then some (replicate zp 0) else none;
  acl = λ page. if ltb page 2 then some write else none;
  heap = record { start = 0; end = 8192; pointer = 8000 };
}

two_pages-IsHeap : IsHeap two_pages
two_pages-IsHeap = record { within = omega arith; aligned = refl }

sbrk-IsHeap_example :
    ((sbrk two_pages 5000).1 ≡ 8000)
    × ((sbrk two_pages 5000).0.heap.pointer ≡ 8000 + 5000)
    × IsHeap (sbrk two_pages 5000).0
sbrk-IsHeap_example = sbrk-IsHeap two_pages 5000 two_pages-IsHeap

sbrk-new_page_example :
    ((sbrk two_pages 5000).0.acl 3 ≡ some write)
    × ((sbrk two_pages 5000).0.memory_content 3 ≡ some (replicate zp 0))
sbrk-new_page_example = sbrk-new_page two_pages 5000 3 two_pages-IsHeap (omega arith) grown
  where
    grown : 3 * zp < (sbrk two_pages 5000).0.heap.end
    grown = unfold sbrk in omega arith

sbrk-other_page_example :
    ((sbrk two_pages 5000).0.acl 1 ≡ two_pages.acl 1)
    × ((sbrk two_pages 5000).0.memory_content 1 ≡ two_pages.memory_content 1)
sbrk-other_page_example = sbrk-other_page two_pages 5000 1 two_pages-IsHeap (inl (omega arith))

can_read-covers_example : has_acl two_pages (page_of ((4093 + 5) % 2 ^ 32)) ≡ true
can_read-covers_example = can_read-covers two_pages 4093 6 5 (omega arith) (omega arith) allowed
  where
    allowed : can_read two_pages 4093 6 ≡ true
    allowed = unfold can_read first_unreadable first_without pages_in_range in refl

can_write-covers_example : is_write (two_pages.acl (page_of ((4093 + 5) % 2 ^ 32))) ≡ true
can_write-covers_example = can_write-covers two_pages 4093 6 5 (omega arith) (omega arith) allowed
  where
    allowed : can_write two_pages 4093 6 ≡ true
    allowed = unfold can_write first_unwriteable first_without pages_in_range in refl
