-- ===== src/Pmm.antt =====
-- kernel/pmm.cpp: the physical frame allocator. The three static variables are the record `Pmm`;
-- the boot information is read through `Memory`, a function from addresses to bytes. A loop over a
-- counted range recurs on the rounds left; the two loops whose step comes from memory take fuel.
-- The bitmap is taken to lie apart from the boot information that the second pass reads.
pub mod Count
pub mod Marks
pub mod Frames
pub mod Init
use mathlib.Core.Option
use hrafn_os.Words.{u64, u32, sub64, align_down}
use hrafn_os.Bitmap.{bitmap_test, bitmap_set, bitmap_clear}
use hrafn_os.Prelude.{
  ℕ, zero, suc, ◌+◌, ◌-◌, ◌*◌, ◌/◌, ◌%◌, ◌^◌, ◌≤◌, ◌<◌, min, max, ◌≡◌, ◌≢◌, refl, sym, ap, ◌∙◌, ◌↔◌,
  Bool, true, false, not, ◌&&◌, ◌||◌, inl, inr, ◌⊎◌, List, [], ◌∷◌, ◌++◌, map, Option, none, some,
  bit_and, bit_or, bit_xor, arith, ltb, leb, ◌==◌, ==_iff, ltb→lt, lt→ltb, leb→le, tests,
  Bool-cases, Option-cases, if◌then◌else◌, get_or, get_elem?, set, take, drop, replicate, length,
  length-set, length-append, length-map, length-take, length-drop, length-replicate,
  take-append-drop, get_elem?-set_self, get_elem?-set_ne, get_or-set_self, get_or-set_ne,
  get_or-beyond, set-beyond, get_or-replicate,
}

abbrev pub frame_size : ℕ
frame_size = 4096

pub record Pmm : Type 0 where
  pub bitmap : List ℕ
  pub total_frames : ℕ
  pub used_frames : ℕ

-- `if (!bitmap_test(f)) { bitmap_set(f); used_frames++; }`
unfoldable pub take_frame : Pmm → ℕ → Pmm
take_frame s f =
    if bitmap_test s.bitmap f
    then s
    else record s { bitmap = bitmap_set s.bitmap f; used_frames = u64 (s.used_frames + 1) }

-- `if (bitmap_test(f)) { bitmap_clear(f); used_frames--; }`
pub drop_frame : Pmm → ℕ → Pmm
drop_frame s f =
    if bitmap_test s.bitmap f
    then record s { bitmap = bitmap_clear s.bitmap f; used_frames = sub64 s.used_frames 1 }
    else s

-- the loop body over frames `f, f + 1, …`, for the given number of rounds
unfoldable pub for_frames : (Pmm → ℕ → Pmm) → ℕ → ℕ → Pmm → Pmm
for_frames body zero f s = s
for_frames body (suc n) f s = for_frames body n (f + 1) (body s f)

-- The loop runs while `f < last && f < total_frames`.
unfoldable pub mark_used : Pmm → ℕ → ℕ → Pmm
mark_used s addr len =
    let first = addr / frame_size in
    let last = u64 (addr + len + frame_size - 1) / frame_size in
    for_frames take_frame (min last s.total_frames - first) first s

unfoldable pub mark_free : Pmm → ℕ → ℕ → Pmm
mark_free s addr len =
    let first = u64 (addr + frame_size - 1) / frame_size in
    let last = u64 (addr + len) / frame_size in
    for_frames drop_frame (min last s.total_frames - first) first s

-- the scan of `pmm_alloc_frame` from frame `f`, with `n` frames left; 0 is `nullptr`
unfoldable pub alloc_from : ℕ → ℕ → Pmm → ℕ × Pmm
alloc_from zero f s = (0, s)
alloc_from (suc n) f s =
    let rest = alloc_from n (f + 1) s in
    if not (bitmap_test s.bitmap f)
    then (
      u64 (f * frame_size),
      record s { bitmap = bitmap_set s.bitmap f; used_frames = u64 (s.used_frames + 1) },
    )
    else rest

unfoldable pub alloc_frame : Pmm → ℕ × Pmm
alloc_frame s = alloc_from s.total_frames 0 s

unfoldable pub free_frame : Pmm → ℕ → Pmm
free_frame s frame =
    let f = frame / frame_size in
    if ltb f s.total_frames && bitmap_test s.bitmap f
    then record s { bitmap = bitmap_clear s.bitmap f; used_frames = sub64 s.used_frames 1 }
    else s

pub free_frame_count : Pmm → ℕ
free_frame_count s = sub64 s.total_frames s.used_frames

pub total_frame_count : Pmm → ℕ
total_frame_count s = s.total_frames

-- Boot information

abbrev pub Memory : Type 0
Memory = ℕ → ℕ

unfoldable pub read32 : Memory → ℕ → ℕ
read32 m a = m a + 2 ^ 8 * m (a + 1) + 2 ^ 16 * m (a + 2) + 2 ^ 24 * m (a + 3)

unfoldable pub read64 : Memory → ℕ → ℕ
read64 m a = read32 m a + 2 ^ 32 * read32 m (a + 4)

-- `mb_mmap_entry`, its reserved word left out
pub record Region : Type 0 where
  pub base_addr : ℕ
  pub len : ℕ
  pub kind : ℕ

pub region_at : Memory → ℕ → Region
region_at m e = record { base_addr = read64 m e; len = read64 m (e + 8); kind = read32 m (e + 16) }

pub data Search : Type 0 where
  found : ℕ → Search
  absent : Search
  unfinished : Search

pub find_mmap_tag_from : ℕ → Memory → ℕ → Search
find_mmap_tag_from zero m tag = unfinished
find_mmap_tag_from (suc fuel) m tag =
    let rest = find_mmap_tag_from fuel m (tag + align_down (u32 (read32 m (tag + 4) + 7)) 3) in
    if read32 m tag == 0 then absent else if read32 m tag == 6 then found tag else rest

pub find_mmap_tag : ℕ → Memory → ℕ → Search
find_mmap_tag fuel m mb_info_addr = find_mmap_tag_from fuel m (mb_info_addr + 8)

-- `for (; e < end; e += entry_size)`, the entries that the loop visits; `none` is out of fuel
pub regions_from : ℕ → Memory → ℕ → ℕ → ℕ → Option (List Region)
regions_from zero m e end step = none
regions_from (suc fuel) m e end step =
    let rest = regions_from fuel m (e + step) end step in
    if ltb e end then Option.map (λ rs. region_at m e ∷ rs) rest else some []

-- the entries of the tag at `mmap`: its header has 16 bytes
pub regions : ℕ → Memory → ℕ → Option (List Region)
regions fuel m mmap =
    regions_from fuel m (mmap + 16) (mmap + read32 m (mmap + 4)) (read32 m (mmap + 8))

-- pass 1
unfoldable pub highest_top : List Region → ℕ → ℕ
highest_top [] highest = highest
highest_top (r ∷ rs) highest =
    highest_top rs (
      let top = u64 (r.base_addr + r.len) in
      if r.kind == 1 && ltb highest top then top else highest)

-- pass 2
pub free_regions : List Region → Pmm → Pmm
free_regions [] s = s
free_regions (r ∷ rs) s = free_regions rs (if r.kind == 1 then mark_free s r.base_addr r.len else s)

-- the bitmap's address, past the kernel image
pub bitmap_addr : ℕ → ℕ
bitmap_addr kernel_end = align_down (u64 (kernel_end + frame_size - 1)) 12

-- `pmm_init` once the map is read: everything is marked used, then the available regions are
-- freed, then the low 1 MiB, the kernel image and the bitmap are reserved
pub init_with : ℕ → List Region → Pmm
init_with kernel_end rs =
    let total = highest_top rs 0 / frame_size in
    let bitmap_bytes = (total + 7) / 8 in
    let s0 : Pmm = record {
      bitmap = replicate bitmap_bytes 0xff;
      total_frames = total;
      used_frames = total;
    } in
    let s1 = free_regions rs s0 in
    let s2 = mark_used s1 0 0x100000 in
    let s3 = mark_used s2 0x200000 (sub64 kernel_end 0x200000) in
    mark_used s3 (bitmap_addr kernel_end) bitmap_bytes

-- With no memory map both loops are skipped.
pub init : ℕ → Memory → ℕ → ℕ → Option Pmm
init fuel m kernel_end mb_info_addr = elim (find_mmap_tag fuel m mb_info_addr) [
  | found mmap ↦ Option.map (init_with kernel_end) (regions fuel m mmap)
  | absent ↦ some (init_with kernel_end [])
  | unfinished ↦ none
]
