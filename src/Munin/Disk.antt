-- ===== src/Munin/Disk.antt =====
-- Persistence in kernel/munin.cpp: the region is written to and read from a block device as a
-- superblock, the inode table, the bitmap and the used data blocks. The device is the interface
-- `Device`. The image of an inode is its C layout: 44 bytes, three of them padding, taken as 0. What stands in the padding is never read.
pub mod Bytes
pub mod Image
pub mod Mount
use hrafn_os.Bitmap.{bitmap_test}
use hrafn_os.Munin.Store.{Fs, Inode, num_blocks, max_inodes, get32, put32, write}
use hrafn_os.Prelude.{
  ℕ, zero, suc, ◌+◌, ◌-◌, ◌*◌, ◌/◌, ◌%◌, ◌^◌, Bool, true, false, not, ◌&&◌, ◌||◌, List, [], ◌∷◌,
  ltb, leb, ◌==◌, if◌then◌else◌, get_or,
}

-- The sectors that `vblk_read` and `vblk_write` reach, 512 bytes each.
pub record Device {ℓ} (D : Type ℓ) : Type ℓ where
  pub read : ℕ → D → ℕ → ℕ
  pub store : ℕ → (ℕ → ℕ) → D → D

abbrev pub magic : ℕ
magic = 0x4D554E49

abbrev pub version : ℕ
version = 2

abbrev pub sb_sector : ℕ
sb_sector = 0

abbrev pub inode_sector : ℕ
inode_sector = 1

-- sizeof(Inode) and sizeof(g_inodes)
abbrev pub inode_bytes : ℕ
inode_bytes = 44

abbrev pub table_bytes : ℕ
table_bytes = 5632

-- sizeof(g_block_used)
abbrev pub bitmap_bytes : ℕ
bitmap_bytes = 64

abbrev pub bitmap_sector : ℕ
bitmap_sector = inode_sector + (table_bytes + 511) / 512

abbrev pub data_sector : ℕ
data_sector = bitmap_sector + (bitmap_bytes + 511) / 512

-- byte `k` of a little-endian word
unfoldable pub byte_of : ℕ → ℕ → ℕ
byte_of v k = v / 2 ^ (8 * k) % 256

-- the byte at offset `o` of an inode in memory
unfoldable pub inode_byte : Inode → ℕ → ℕ
inode_byte f o =
    if o == 0
    then f.kind
    else if ltb o 4
    then 0
    else if ltb o 8
    then byte_of f.size (o % 4)
    else if ltb o 40
    then byte_of (f.blocks (o / 4 - 2)) (o % 4)
    else byte_of f.indirect (o % 4)

-- `g_inodes` as bytes
unfoldable pub table_image : (ℕ → Inode) → ℕ → ℕ
table_image inodes a = inode_byte (inodes (a / inode_bytes)) (a % inode_bytes)

-- the inode whose bytes start at `a` of an image
unfoldable pub inode_at : (ℕ → ℕ) → ℕ → Inode
inode_at m a = record {
  kind = m a;
  size = get32 m (a + 4);
  blocks = λ b. get32 m (a + 8 + 4 * b);
  indirect = get32 m (a + 40);
}

-- the first `n` values of a function, from `i` on
unfoldable pub bytes_from : ℕ → ℕ → (ℕ → ℕ) → List ℕ
bytes_from zero i m = []
bytes_from (suc n) i m = m i ∷ bytes_from n (i + 1) m

-- the record that `munin_flush` writes in front
unfoldable pub superblock : ℕ → ℕ
superblock = put32 (put32 (put32 (put32 (λ _. 0) 0 magic) 4 version) 8 max_inodes) 12 num_blocks

module _ {ℓ} {D : Type ℓ} (dev : Device D) where
  -- `for (i = 0; i < full; i++) vblk_write(start_sector + i, p + i * 512)`
  unfoldable pub write_full : ℕ → ℕ → ℕ → (ℕ → ℕ) → D → D
  write_full zero i start src d = d
  write_full (suc n) i start src d =
      write_full n (i + 1) start src (dev.store (start + i) (λ o. src (i * 512 + o)) d)

  unfoldable pub disk_write_bytes : ℕ → (ℕ → ℕ) → ℕ → D → D
  disk_write_bytes start src nbytes d =
      let full = nbytes / 512 in
      let rem = nbytes % 512 in
      let d1 = write_full full 0 start src d in
      if rem == 0
      then d1
      else dev.store (start + full) (λ o. if ltb o rem then src (full * 512 + o) else 0) d1

  unfoldable pub read_full : ℕ → ℕ → ℕ → (ℕ → ℕ) → D → ℕ → ℕ
  read_full zero i start dst d = dst
  read_full (suc n) i start dst d =
      read_full n (i + 1) start
        (λ a.
          if leb (i * 512) a && ltb a (i * 512 + 512)
          then dev.read (start + i) d (a - i * 512)
          else dst a)
        d

  unfoldable pub disk_read_bytes : ℕ → (ℕ → ℕ) → ℕ → D → ℕ → ℕ
  disk_read_bytes start dst nbytes d =
      let full = nbytes / 512 in
      let rem = nbytes % 512 in
      let dst1 = read_full full 0 start dst d in
      if rem == 0 then dst1 else λ a.
      if leb (full * 512) a && ltb a (full * 512 + rem)
      then dev.read (start + full) d (a - full * 512)
      else dst1 a

  -- the data loops of `munin_flush` and `munin_mount`, with `n` blocks left from block `b`
  unfoldable pub flush_blocks : ℕ → ℕ → Fs → D → D
  flush_blocks zero b fs d = d
  flush_blocks (suc n) b fs d =
      flush_blocks n (b + 1) fs
        (if bitmap_test fs.used b then dev.store (data_sector + b) (fs.bytes b) d else d)

  unfoldable pub load_blocks : ℕ → ℕ → D → Fs → Fs
  load_blocks zero b d fs = fs
  load_blocks (suc n) b d fs = load_blocks n (b + 1) d (
      if bitmap_test fs.used b
      then record fs { bytes = write fs.bytes b (dev.read (data_sector + b) d) }
      else fs)

  unfoldable pub flush : Fs → D → D
  flush fs d =
      let d1 = dev.store sb_sector superblock d in
      let d2 = disk_write_bytes inode_sector (table_image fs.inodes) table_bytes d1 in
      let d3 = disk_write_bytes bitmap_sector (λ o. get_or fs.used o 0) bitmap_bytes d2 in
      flush_blocks num_blocks 0 fs d3

  -- `munin_mount`; `false` leaves the region as it was
  unfoldable pub mount : D → Fs → Bool × Fs
  mount d fs =
      let sb = dev.read sb_sector d in
      let table = disk_read_bytes inode_sector (table_image fs.inodes) table_bytes d in
      let used = disk_read_bytes bitmap_sector (λ o. get_or fs.used o 0) bitmap_bytes d in
      if not (get32 sb 0 == magic)
        || not (get32 sb 4 == version)
        || not (get32 sb 8 == max_inodes)
        || not (get32 sb 12 == num_blocks)
      then (false, fs)
      else (
        true,
        load_blocks num_blocks 0 d (record fs {
          inodes = λ i. if ltb i max_inodes then inode_at table (i * inode_bytes) else fs.inodes i;
          used = bytes_from bitmap_bytes 0 used;
        }),
      )
