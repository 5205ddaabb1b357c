-- ===== src/Tests/Mm.antt =====
-- kernel/pmm.cpp and kernel/heap.cpp at concrete inputs.
use mathlib.Core.List.{Perm}
use hrafn_os.Bitmap.{bitmap_test, bitmap_set}
use hrafn_os.Pmm.{
  Pmm, Region, Memory, read32, init_with, alloc_frame, free_frame, mark_used, find_mmap_tag_from,
  highest_top, alloc_from,
}
use hrafn_os.Pmm.Count.{count_below}
use hrafn_os.Pmm.Marks.{IsValid, used, used-mark_used, overlaps}
use hrafn_os.Pmm.Frames.{Allocated, alloc_frame-Allocated, free_frame-alloc_frame}
use hrafn_os.Pmm.Init.{
  offered, reserved, init_with-frames, Tags, end_tag, tag, find_mmap_tag_from-FirstMap, FirstMap,
}
use hrafn_os.Heap.{Heap, heap_base, heap_size, kmalloc, kfree, round_up}
use hrafn_os.Heap.Blocks.{Block, block, span, in_use, NoFit}
use hrafn_os.Heap.Merge.{NoFreePair}
use hrafn_os.Heap.Refine.{Holds, Granted, kmalloc-Granted, kfree-Holds}
use hrafn_os.Prelude.{
  ℕ, zero, suc, ◌+◌, ◌-◌, ◌/◌, ◌<◌, ◌≡◌, ◌≢◌, refl, true, false, not, ◌&&◌, ◌||◌, inl, ◌⊎◌, List,
  [], ◌∷◌, some, arith, ltb, ◌==◌, if◌then◌else◌, get_or,
}

-- Eight frames, of which 0 and 2 are used.
abbrev eight_frames : Pmm
eight_frames = record { bitmap = 5 ∷ []; total_frames = 8; used_frames = 2 }

eight_frames-IsValid : IsValid eight_frames
unfolding count_below bitmap_test
eight_frames-IsValid = record {
  bytes = bytes;
  room = omega arith;
  small = omega arith;
  counted = refl;
}
  where
    bytes : (i : ℕ) → get_or (5 ∷ []) i 0 < 256
    bytes zero = omega arith
    bytes (suc i) = omega arith

alloc_frame-Allocated_example : Allocated eight_frames (alloc_frame eight_frames)
alloc_frame-Allocated_example = alloc_frame-Allocated eight_frames eight_frames-IsValid

first_succeeds : (alloc_frame eight_frames).0 ≢ 0
unfolding alloc_frame alloc_from bitmap_test
first_succeeds e = omega arith

second_succeeds : (alloc_frame (alloc_frame eight_frames).1).0 ≢ 0
unfolding alloc_frame alloc_from bitmap_test bitmap_set
second_succeeds e = omega arith

free_frame-alloc_frame_example :
    let (p, t) = alloc_frame eight_frames in
    ((g : ℕ) → used (free_frame t p) g ≡ used eight_frames g)
    × ((free_frame t p).used_frames ≡ eight_frames.used_frames)
free_frame-alloc_frame_example =
    free_frame-alloc_frame eight_frames eight_frames-IsValid first_succeeds

used-mark_used_example :
    IsValid (mark_used eight_frames 5000 8000)
    × ((g : ℕ)
        → used (mark_used eight_frames 5000 8000) g
          ≡ (overlaps 5000 8000 g && ltb g 8 || used eight_frames g))
used-mark_used_example = used-mark_used eight_frames 5000 8000 eight_frames-IsValid (omega arith)

-- low memory, a hole, and 62 MiB of RAM from 2 MiB on
abbrev two_regions : List Region
two_regions =
    record { base_addr = 0; len = 0x9fc00; kind = 1 }
    ∷ record { base_addr = 0x200000; len = 0x3e00000; kind = 1 }
    ∷ []

init_with-frames_example :
    let s = init_with 0x300000 two_regions in
    let total = highest_top two_regions 0 / 4096 in
    IsValid s
    × (s.total_frames ≡ total)
    × ((g : ℕ)
        → g < total
        → used s g ≡ (reserved 0x300000 ((total + 7) / 8) g || not (offered two_regions g)))
init_with-frames_example =
    init_with-frames 0x300000 two_regions (omega arith, (omega arith, tt)) (omega arith)
      (omega arith)

-- a memory of zero bytes but for two tags: a tag of type 1 and 16 bytes at 8, then type 6 and 16 bytes at 24
abbrev two_tags : Memory
two_tags a =
    if a == 8 then 1 else if a == 12 then 16 else if a == 24 then 6 else if a == 28 then 16 else 0

two_tags-Tags : Tags two_tags 8 (8 ∷ 24 ∷ [])
unfolding read32
two_tags-Tags = tag (λ e. omega arith) (tag (λ e. omega arith) (end_tag refl))

find_mmap_tag_from-FirstMap_example :
    FirstMap two_tags (8 ∷ 24 ∷ []) (find_mmap_tag_from 3 two_tags 8)
find_mmap_tag_from-FirstMap_example =
    find_mmap_tag_from-FirstMap 3 two_tags 8 (8 ∷ 24 ∷ []) two_tags-Tags (omega arith)

-- The heap after a block of 64 bytes was taken from the fresh arena.
abbrev one_taken : Heap
one_taken = record {
  head = heap_base;
  hdr = λ a.
      if a == heap_base
      then record { size = 64; next = heap_base + 88; free = false }
      else record { size = heap_size - 112; next = 0; free = true };
}

abbrev one_taken_blocks : List Block
one_taken_blocks = block 64 false ∷ block (heap_size - 112) true ∷ []

one_taken-Holds : Holds one_taken one_taken_blocks
unfolding span
one_taken-Holds = record {
  chain = (refl, refl, refl, (refl, refl, refl, refl));
  full = refl;
  aligned = (refl, (refl, tt));
}

kmalloc-Granted_example :
    ((kmalloc 3 100 one_taken ≡ some (0, one_taken)) × NoFit (round_up 100) one_taken_blocks)
    ⊎ ((p : ℕ) × (t : Heap) × (kmalloc 3 100 one_taken ≡ some (p, t))
        × Granted 100 one_taken_blocks p t)
kmalloc-Granted_example =
    kmalloc-Granted 3 100 one_taken one_taken_blocks one_taken-Holds (λ e. omega arith)
      (omega arith) (omega arith)

kfree-Holds_example :
    (t : Heap) × (cs : List Block) × (kfree 3 (heap_base + 24) one_taken ≡ some t)
    × Holds t cs
    × NoFreePair cs
    × Perm (in_use heap_base one_taken_blocks) ((heap_base + 24, 64) ∷ in_use heap_base cs)
kfree-Holds_example =
    kfree-Holds 3 (heap_base + 24) 64 one_taken one_taken_blocks one_taken-Holds
      (inl (refl, refl, refl)) (omega arith)
