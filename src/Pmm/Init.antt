-- ===== src/Pmm/Init.antt =====
-- `pmm_init` of kernel/pmm.cpp: which frames are free once the memory map has been read, and that
-- reading it ends.
use hrafn_os.Words.{u32, sub64, align_down}
use hrafn_os.Bitmap.Laws.{IsBytes-replicate, bitmap_test-replicate}
use hrafn_os.Pmm.{
  Pmm, frame_size, mark_used, mark_free, Region, region_at, highest_top, free_regions, bitmap_addr,
  init_with, Memory, read32, found, absent, unfinished, Search, find_mmap_tag_from, regions_from,
  Search,
}
use hrafn_os.Pmm.Count.{count_below-all}
use hrafn_os.Pmm.Marks.{
  IsValid, used, overlaps, contains, used-mark_used, used-mark_free, total-mark_used,
  total-mark_free,
}
use hrafn_os.Prelude.{
  ℕ, zero, suc, ◌+◌, ◌-◌, ◌/◌, ◌^◌, ◌≤◌, ◌<◌, ◌≡◌, refl, sym, ◌∙◌, Bool, true, false, not, ◌&&◌,
  ◌||◌, inl, inr, List, [], ◌∷◌, some, arith, ltb, ◌==◌, Bool-cases, replicate, length-replicate,
  ◌≢◌, length, get_or,
}

-- Region ends that do not wrap.
abbrev pub Fits : List Region → Type 0
Fits [] = Unit
Fits (r ∷ rs) = (r.base_addr + r.len + 4095 < 2 ^ 64) × Fits rs

-- Some region reported as available RAM holds the whole of frame `g`.
unfoldable pub offered : List Region → ℕ → Bool
offered [] g = false
offered (r ∷ rs) g = r.kind == 1 && contains r.base_addr r.len g || offered rs g

highest_top-lt : (rs : List Region) (h : ℕ) → h < 2 ^ 64 → highest_top rs h < 2 ^ 64
unfolding highest_top
highest_top-lt [] h l = l
highest_top-lt (r ∷ rs) h l = highest_top-lt rs _ (ground arith)

-- The allocator as it is before any region is freed.
abbrev all_used : ℕ → Pmm
all_used total = record {
  bitmap = replicate ((total + 7) / 8) 0xff;
  total_frames = total;
  used_frames = total;
}

all_used-bits : (total g : ℕ) → g < total → used (all_used total) g ≡ true
all_used-bits total g l = bitmap_test-replicate ((total + 7) / 8) g (omega arith)

all_used-IsValid : (total : ℕ) → total ≤ 2 ^ 52 → IsValid (all_used total)
all_used-IsValid total h = record {
  bytes = IsBytes-replicate ((total + 7) / 8) 0xff (omega arith);
  room = rw (length-replicate {A = ℕ} ((total + 7) / 8) 0xff) (omega arith);
  small = h;
  counted = sym (count_below-all _ total (all_used-bits total));
}

record Freed (rs : List Region) (s t : Pmm) : Type 0 where
  valid : IsValid t
  total : t.total_frames ≡ s.total_frames
  bits : (g : ℕ) → used t g ≡ (not (offered rs g && ltb g s.total_frames) && used s g)

free_regions-Freed :
    (rs : List Region) (s : Pmm) → IsValid s → Fits rs → Freed rs s (free_regions rs s)
unfolding free_regions offered
free_regions-Freed [] s v h = record { valid = v; total = refl; bits = λ g. refl }
free_regions-Freed (r ∷ rs) s v (h, hs) = elim (Bool-cases (r.kind == 1)) [
  | inl e ↦
      let t = mark_free s r.base_addr r.len in
      let one = used-mark_free s r.base_addr r.len v h in
      let tot = total-mark_free s r.base_addr r.len v h in
      let ih = free_regions-Freed rs t one.0 hs in
      rw e (record {
        valid = ih.valid;
        total = ih.total ∙ tot;
        bits = λ g. ground (arith, ih.bits g, one.1 g);
      })
  | inr e ↦
      let ih = free_regions-Freed rs s v hs in
      rw e (record { valid = ih.valid; total = ih.total; bits = λ g. ground (arith, ih.bits g) })
]

-- The frames that `pmm_init` must never hand out.
unfoldable pub reserved : ℕ → ℕ → ℕ → Bool
reserved kernel_end bitmap_bytes g =
    overlaps 0 0x100000 g
    || (overlaps 0x200000 (kernel_end - 0x200000) g
        || overlaps (bitmap_addr kernel_end) bitmap_bytes g)

module _ (kernel_end : ℕ) (rs : List Region) (fits : Fits rs) (lo : 0x200000 ≤ kernel_end)
    (hi : kernel_end < 2 ^ 63) where
  total_bound : highest_top rs 0 / frame_size ≤ 2 ^ 52
  total_bound = omega (arith, highest_top-lt rs 0 (omega arith))

  -- For a kernel image that ends between 2 MiB and 2^63, and regions whose ends do not wrap:
  -- after `pmm_init` the allocator is valid, it manages the frames below the highest available
  -- address, and a managed frame is free exactly when an available region holds all of it and it
  -- meets neither the low 1 MiB, nor the kernel image, nor the frame bitmap.
  pub init_with-frames :
      let s = init_with kernel_end rs in
      let total = highest_top rs 0 / 4096 in
      IsValid s
      × (s.total_frames ≡ total)
      × ((g : ℕ)
          → g < total
          → used s g ≡ (reserved kernel_end ((total + 7) / 8) g || not (offered rs g)))
  unfolding init_with reserved bitmap_addr
  init_with-frames =
      let total = highest_top rs 0 / frame_size in
      let s1 = free_regions-Freed rs (all_used total) (all_used-IsValid total total_bound) fits in
      let t1 = free_regions rs (all_used total) in
      let s2 = used-mark_used t1 0 0x100000 s1.valid (omega arith) in
      let e2 = total-mark_used t1 0 0x100000 s1.valid (omega arith) in
      let t2 = mark_used t1 0 0x100000 in
      let n3 = sub64 kernel_end 0x200000 in
      let n3e : n3 ≡ kernel_end - 0x200000 = omega arith in
      let s3 = used-mark_used t2 0x200000 n3 s2.0 (omega arith) in
      let e3 = total-mark_used t2 0x200000 n3 s2.0 (omega arith) in
      let t3 = mark_used t2 0x200000 n3 in
      let b4 : bitmap_addr kernel_end + (total + 7) / 8 + 4095 < 2 ^ 64 =
        omega (arith, total_bound) in
      let s4 = used-mark_used t3 (bitmap_addr kernel_end) ((total + 7) / 8) s3.0 b4 in
      let e4 = total-mark_used t3 (bitmap_addr kernel_end) ((total + 7) / 8) s3.0 b4 in
      (
        s4.0,
        e4 ∙ e3 ∙ e2 ∙ s1.total,
        λ g l. ground (
          arith,
          s4.1 g,
          s3.1 g,
          s2.1 g,
          s1.bits g,
          all_used-bits total g l,
          e2,
          e3,
          e4,
          s1.total,
          n3e,
        ),
      )

-- Reading the boot information

-- A memory map whose entries take `step` bytes, not 0, is read with one round of fuel more than
-- there are bytes between `e` and `end`.
pub regions_from-total :
    (fuel : ℕ) (m : Memory) (e end step : ℕ)
    → 0 < step
    → end - e < fuel
    → (rs : List Region) × (regions_from fuel m e end step ≡ some rs)
unfolding regions_from
regions_from-total zero m e end step p h = absurd (omega arith)
regions_from-total (suc fuel) m e end step p h = elim (Bool-cases (ltb e end)) [
  | inl t ↦
      let (rs, q) = regions_from-total fuel m (e + step) end step p (ground arith) in
      (region_at m e ∷ rs, rw (t, q) refl)
  | inr t ↦ ([], rw t refl)
]

-- The addresses of a tag list before its end: each tag's 8-byte aligned size leads to the next, and
-- the tag that ends the list has type 0.
pub data Tags (m : Memory) : ℕ → List ℕ → Type 0 where
  end_tag : {a : ℕ} → read32 m a ≡ 0 → Tags m a []
  tag :
      {a : ℕ} {xs : List ℕ}
      → read32 m a ≢ 0
      → Tags m (a + align_down (u32 (read32 m (a + 4) + 7)) 3) xs
      → Tags m a (a ∷ xs)

-- What a search of the tags at `xs` has to give: `absent` when none of them has type 6, and otherwise
-- the first one that has.
abbrev pub FirstMap : Memory → List ℕ → Search → Type 0
FirstMap m xs unfinished = ⊥
FirstMap m xs absent = (i : ℕ) → i < length xs → read32 m (get_or xs i 0) ≢ 6
FirstMap m xs (found t) =
    (i : ℕ) × (i < length xs)
    × (get_or xs i 0 ≡ t)
    × (read32 m t ≡ 6)
    × ((j : ℕ) → j < i → read32 m (get_or xs j 0) ≢ 6)

FirstMap-behind :
    (m : Memory) (a : ℕ) (xs : List ℕ) (r : Search)
    → read32 m a ≢ 6
    → FirstMap m xs r
    → FirstMap m (a ∷ xs) r
FirstMap-behind m a xs unfinished n h = h
FirstMap-behind m a xs absent n h = behind
  where
    behind : (i : ℕ) → i < suc (length xs) → read32 m (get_or (a ∷ xs) i 0) ≢ 6
    behind zero l = n
    behind (suc i) l = h i (omega arith)
FirstMap-behind m a xs (found t) n (i, l, e, s, low) = (suc i, omega arith, e, s, behind)
  where
    behind : (j : ℕ) → j < suc i → read32 m (get_or (a ∷ xs) j 0) ≢ 6
    behind zero l = n
    behind (suc j) l = low j (omega arith)

-- On a tag list `find_mmap_tag` stops, with fuel for more rounds than there are tags before the end:
-- it finds the first tag of type 6, and gives none exactly when no tag before the end has that type.
pub find_mmap_tag_from-FirstMap :
    (fuel : ℕ) (m : Memory) (a : ℕ) (xs : List ℕ)
    → Tags m a xs
    → length xs < fuel
    → FirstMap m xs (find_mmap_tag_from fuel m a)
unfolding find_mmap_tag_from
find_mmap_tag_from-FirstMap zero m a xs t h = absurd (omega arith)
find_mmap_tag_from-FirstMap (suc fuel) m a [] (end_tag e) h = rw e (λ i l. absurd (omega arith))
find_mmap_tag_from-FirstMap (suc fuel) m a (x ∷ xs) (tag n t) h =
    let z : (read32 m a == 0) ≡ false = ground arith in
    elim (Bool-cases (read32 m a == 6)) [
      | inl e ↦ rw (z, e) (zero, omega arith, refl, ground arith, λ j l. absurd (omega arith))
      | inr e ↦
          rw (z, e)
            (FirstMap-behind m a xs _ (ground arith)
              (find_mmap_tag_from-FirstMap fuel m _ xs t (omega arith)))
    ]
