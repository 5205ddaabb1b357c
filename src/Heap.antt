-- ===== src/Heap.antt =====
-- kernel/heap.cpp: the kernel's free-list allocator. Memory is read and written only through block
-- headers, so the store is a function from addresses to headers, with the static `head`. A null
-- pointer is 0. The loops along the list take fuel, and `none` is out of fuel; Heap/Refine has the
-- theorems that one round for each block, and one more, is enough.
-- The callers are taken to write only inside the payload that they were given.
pub mod Arena
pub mod Blocks
pub mod Chain
pub mod Merge
pub mod Search
pub mod Coalesce
pub mod Refine
use hrafn_os.Words.{u64, sub64, align_down}
use hrafn_os.Prelude.{
  ℕ, zero, suc, ◌+◌, ◌-◌, ◌*◌, ◌/◌, ◌%◌, ◌^◌, ◌≤◌, ◌<◌, min, max, ◌≡◌, ◌≢◌, refl, sym, ap, ◌∙◌, ◌↔◌,
  Bool, true, false, not, ◌&&◌, ◌||◌, inl, inr, ◌⊎◌, List, [], ◌∷◌, ◌++◌, map, Option, none, some,
  bit_and, bit_or, bit_xor, arith, ltb, leb, ◌==◌, ==_iff, ltb→lt, lt→ltb, leb→le, tests,
  Bool-cases, Option-cases, if◌then◌else◌, get_or, get_elem?, set, take, drop, replicate, length,
  length-set, length-append, length-map, length-take, length-drop, length-replicate,
  take-append-drop, get_elem?-set_self, get_elem?-set_ne, get_or-set_self, get_or-set_ne,
  get_or-beyond, set-beyond, get_or-replicate,
}

abbrev pub heap_base : ℕ
heap_base = 0x100000000

abbrev pub heap_size : ℕ
heap_size = 0x200000

-- `sizeof(block_header)`: two 8-byte fields, a bool, and padding
abbrev pub header_size : ℕ
header_size = 24

pub record Header : Type 0 where
  pub size : ℕ
  pub next : ℕ
  pub free : Bool

pub record Heap : Type 0 where
  pub head : ℕ
  pub hdr : ℕ → Header

abbrev pub write : (ℕ → Header) → ℕ → Header → ℕ → Header
write m a v x = if a == x then v else m x

-- the end of `heap_init`, once the arena's pages are mapped
pub init : Heap → Heap
init h = record {
  head = heap_base;
  hdr = write h.hdr heap_base (record { size = heap_size - header_size; next = 0; free = true });
}

-- The part of `kmalloc` that takes block `b`: the header behind the request is written first.
pub take_block : Heap → ℕ → ℕ → Heap
take_block h b size =
    let old = h.hdr b in
    if leb (u64 (size + header_size + 16)) old.size
    then (let split = b + header_size + size in
        let rest : Header = record {
          size = sub64 (sub64 old.size size) header_size;
          next = old.next;
          free = true;
        } in
        record h {
          hdr =
              write (write h.hdr split rest) b (record { size = size; next = split; free = false });
        })
    else record h { hdr = write h.hdr b (record old { free = false }) }

pub kmalloc_from : ℕ → ℕ → ℕ → Heap → Option (ℕ × Heap)
kmalloc_from zero size b h = none
kmalloc_from (suc fuel) size b h =
    let rest = kmalloc_from fuel size (h.hdr b).next h in
    if b == 0
    then some (0, h)
    else if (h.hdr b).free && leb size (h.hdr b).size
    then some (b + header_size, take_block h b size)
    else rest

-- `(size + 7) & ~7ULL`
pub round_up : ℕ → ℕ
round_up size = align_down (u64 (size + 7)) 3

pub kmalloc : ℕ → ℕ → Heap → Option (ℕ × Heap)
kmalloc fuel size h = if size == 0 then some (0, h) else kmalloc_from fuel (round_up size) h.head h

-- `b` takes in the block behind it.
pub absorb : Heap → ℕ → Heap
absorb h b =
    let old = h.hdr b in
    let after = h.hdr old.next in
    record h {
      hdr =
          write h.hdr b
            (record old { size = u64 (old.size + (header_size + after.size)); next = after.next });
    }

pub coalesce_from : ℕ → ℕ → Heap → Option Heap
coalesce_from zero b h = none
coalesce_from (suc fuel) b h =
    let again = coalesce_from fuel b (absorb h b) in
    let onward = coalesce_from fuel (h.hdr b).next h in
    if b == 0 || (h.hdr b).next == 0
    then some h
    else if (h.hdr b).free && (h.hdr (h.hdr b).next).free
    then again
    else onward

pub coalesce : ℕ → Heap → Option Heap
coalesce fuel h = coalesce_from fuel h.head h

-- `b->free = true`
pub release : Heap → ℕ → Heap
release h b = record h { hdr = write h.hdr b (record (h.hdr b) { free = true }) }

pub kfree : ℕ → ℕ → Heap → Option Heap
kfree fuel ptr h = if ptr == 0 then some h else coalesce fuel (release h (ptr - header_size))
