-- ===== src/Heap/Arena.antt =====
-- The first loop of `heap_init` in kernel/heap.cpp: every page of the arena gets a frame, mapped in the
-- kernel's address space. `Heap.init` is the rest of `heap_init`.
use hrafn_os.Pmm.{alloc_frame, frame_size}
use hrafn_os.Vmm.{Vmm, map_page, page_present, page_writable}
use hrafn_os.Heap.{heap_base, heap_size}
use hrafn_os.Prelude.{ℕ, zero, suc, ◌+◌, ◌/◌, bit_or}

-- the loop from offset `off` on, with `n` pages left
pub map_arena_from : ℕ → ℕ → Vmm → Vmm
map_arena_from zero off s = s
map_arena_from (suc n) off s =
    let (frame, pmm) = alloc_frame s.pmm in
    map_arena_from n (off + frame_size) (
      map_page (heap_base + off) frame (bit_or page_present page_writable) (record s { pmm = pmm }))

pub map_arena : Vmm → Vmm
map_arena s = map_arena_from (heap_size / frame_size) 0 s
