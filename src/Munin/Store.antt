-- ===== src/Munin/Store.antt =====
-- The region of kernel/munin.cpp: inodes, data blocks and the block bitmap, with the allocators and
-- `block_for`, the map from a file's logical blocks to the region's. A block is a function from offsets
-- to bytes; -1 and null results are `none`.
pub mod Alloc
pub mod Direct
use hrafn_os.Bitmap.{bitmap_test, bitmap_set, bitmap_clear}
use hrafn_os.Prelude.{
  ℕ, zero, suc, ◌+◌, ◌-◌, ◌*◌, ◌/◌, ◌%◌, ◌^◌, ◌≤◌, ◌<◌, min, max, ◌≡◌, ◌≢◌, refl, sym, ap, ◌∙◌, ◌↔◌,
  Bool, true, false, not, ◌&&◌, ◌||◌, inl, inr, ◌⊎◌, List, [], ◌∷◌, ◌++◌, map, Option, none, some,
  bit_and, bit_or, bit_xor, arith, ltb, leb, ◌==◌, ==_iff, ltb→lt, lt→ltb, leb→le, tests,
  Bool-cases, Option-cases, if◌then◌else◌, get_or, get_elem?, set, take, drop, replicate, length,
  length-set, length-append, length-map, length-take, length-drop, length-replicate,
  take-append-drop, get_elem?-set_self, get_elem?-set_ne, get_or-set_self, get_or-set_ne,
  get_or-beyond, set-beyond, get_or-replicate,
}

abbrev pub max_inodes : ℕ
max_inodes = 128

abbrev pub num_blocks : ℕ
num_blocks = 512

abbrev pub block_size : ℕ
block_size = 512

abbrev pub max_name : ℕ
max_name = 32

-- MUNIN_DIRECT: direct block pointers of an inode
abbrev pub direct : ℕ
direct = 8

abbrev pub ptrs_per_block : ℕ
ptrs_per_block = 128

abbrev pub max_blocks : ℕ
max_blocks = 136

abbrev pub no_block : ℕ
no_block = 0xFFFFFFFF

-- INODE_FREE, INODE_FILE, INODE_DIR
abbrev pub inode_free : ℕ
inode_free = 0

abbrev pub inode_file : ℕ
inode_file = 1

abbrev pub inode_dir : ℕ
inode_dir = 2

pub record Inode : Type 0 where
  pub kind : ℕ  -- the source's `type`
  pub size : ℕ
  pub blocks : ℕ → ℕ
  pub indirect : ℕ

pub record Fs : Type 0 where
  pub inodes : ℕ → Inode
  pub bytes : ℕ → ℕ → ℕ  -- g_blocks
  pub used : List ℕ  -- g_block_used

abbrev pub write {ℓ} : {A : Type ℓ} → (ℕ → A) → ℕ → A → ℕ → A
write m a v x = if a == x then v else m x

-- `g_inodes[i] = f`
abbrev pub set_inode : Fs → ℕ → Inode → Fs
set_inode fs i f = record fs { inodes = write fs.inodes i f }

-- `*(uint32_t*)(block + off)`, little-endian
unfoldable pub get32 : (ℕ → ℕ) → ℕ → ℕ
get32 m off = m off + 2 ^ 8 * m (off + 1) + 2 ^ 16 * m (off + 2) + 2 ^ 24 * m (off + 3)

unfoldable pub put32 : (ℕ → ℕ) → ℕ → ℕ → ℕ → ℕ
put32 m off v =
    write
      (write (write (write m off (v % 256)) (off + 1) (v / 2 ^ 8 % 256)) (off + 2)
        (v / 2 ^ 16 % 256))
      (off + 3) (v / 2 ^ 24 % 256)

-- the scan of `alloc_block` from block `i`, with `n` blocks left
pub alloc_block_from : ℕ → ℕ → Fs → Option ℕ × Fs
alloc_block_from zero i fs = (none, fs)
alloc_block_from (suc n) i fs =
    let rest = alloc_block_from n (i + 1) fs in
    if not (bitmap_test fs.used i)
    then (some i, record fs { used = bitmap_set fs.used i })
    else rest

pub alloc_block : Fs → Option ℕ × Fs
alloc_block fs = alloc_block_from num_blocks 0 fs

pub free_block : ℕ → Fs → Fs
free_block blk fs = record fs { used = bitmap_clear fs.used blk }

-- The inode that `alloc_inode` sets up: no blocks, size 0.
abbrev pub fresh_inode : ℕ → Inode
fresh_inode kind = record { kind = kind; size = 0; blocks = λ _. no_block; indirect = no_block }

pub alloc_inode_from : ℕ → ℕ → ℕ → Fs → Option ℕ × Fs
alloc_inode_from zero i kind fs = (none, fs)
alloc_inode_from (suc n) i kind fs =
    let rest = alloc_inode_from n (i + 1) kind fs in
    if (fs.inodes i).kind == inode_free then (some i, set_inode fs i (fresh_inode kind)) else rest

pub alloc_inode : ℕ → Fs → Option ℕ × Fs
alloc_inode kind fs = alloc_inode_from max_inodes 0 kind fs

-- A new block, every byte of it set to `v`; NO_BLOCK when the region is full.
unfoldable pub filled_block : ℕ → Fs → ℕ × Fs
filled_block v fs =
    let (o, fs') = alloc_block fs in
    elim o [
      | none ↦ (no_block, fs')
      | some blk ↦ (blk, record fs' { bytes = write fs'.bytes blk (λ _. v) })
    ]

-- the direct range of `block_for`
unfoldable pub direct_block : ℕ → ℕ → Bool → Fs → ℕ × Fs
direct_block ino b alloc fs =
    let f = fs.inodes ino in
    let made = filled_block 0 fs in
    if not (f.blocks b == no_block)
    then (f.blocks b, fs)
    else if not alloc
    then (no_block, fs)
    else if made.0 == no_block
    then made
    else (made.0, set_inode made.1 ino (record f { blocks = write f.blocks b made.0 }))

-- the indirect block of the inode: present, or made with every pointer NO_BLOCK (all bytes 0xFF)
pub indirect_table : ℕ → Bool → Fs → ℕ × Fs
indirect_table ino alloc fs =
    let f = fs.inodes ino in
    let made = filled_block 0xFF fs in
    if not (f.indirect == no_block)
    then (f.indirect, fs)
    else if not alloc
    then (no_block, fs)
    else if made.0 == no_block
    then made
    else (made.0, set_inode made.1 ino (record f { indirect = made.0 }))

-- the pointer at `idx` of the indirect block `ib`
pub indirect_block : ℕ → ℕ → Bool → Fs → ℕ × Fs
indirect_block ib idx alloc fs =
    let ptr = get32 (fs.bytes ib) (4 * idx) in
    let made = filled_block 0 fs in
    if not (ptr == no_block)
    then (ptr, fs)
    else if not alloc
    then (no_block, fs)
    else if made.0 == no_block
    then made
    else (
      made.0,
      record made.1 { bytes = write made.1.bytes ib (put32 (made.1.bytes ib) (4 * idx) made.0) },
    )

unfoldable pub block_for : ℕ → ℕ → Bool → Fs → ℕ × Fs
block_for ino b alloc fs =
    let (ib, fs1) = indirect_table ino alloc fs in
    let deep = indirect_block ib (b - direct) alloc fs1 in
    if leb max_blocks b
    then (no_block, fs)
    else if ltb b direct
    then direct_block ino b alloc fs
    else if ib == no_block
    then (no_block, fs1)
    else deep

-- `if (p != NO_BLOCK) free_block(p)`
abbrev pub free_pointer : ℕ → Fs → Fs
free_pointer p fs = if not (p == no_block) then free_block p fs else fs

pub free_direct_from : ℕ → ℕ → (ℕ → ℕ) → Fs → Fs
free_direct_from zero b blocks fs = fs
free_direct_from (suc n) b blocks fs =
    free_direct_from n (b + 1) blocks (free_pointer (blocks b) fs)

pub free_table_from : ℕ → ℕ → ℕ → Fs → Fs
free_table_from zero i ib fs = fs
free_table_from (suc n) i ib fs =
    free_table_from n (i + 1) ib (free_pointer (get32 (fs.bytes ib) (4 * i)) fs)

-- The inode's pointers become NO_BLOCK as its blocks go back to the bitmap, and its size 0.
pub free_inode_blocks : ℕ → Fs → Fs
free_inode_blocks ino fs =
    let f = fs.inodes ino in
    let fs1 = free_direct_from direct 0 f.blocks fs in
    let fs2 =
      if not (f.indirect == no_block)
      then free_block f.indirect (free_table_from ptrs_per_block 0 f.indirect fs1)
      else fs1 in
    set_inode fs2 ino (record f { size = 0; blocks = λ _. no_block; indirect = no_block })
