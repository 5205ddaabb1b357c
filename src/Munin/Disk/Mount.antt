-- ===== src/Munin/Disk/Mount.antt =====
-- `munin_mount` after `munin_flush` in kernel/munin.cpp: the device gives the file system back.
use mathlib.Core.Path.{subst}
use hrafn_os.Bitmap.{bitmap_test}
use hrafn_os.Munin.Store.{Fs, num_blocks, max_inodes, get32, put32, write}
use hrafn_os.Munin.Disk.{
  Device, magic, version, inode_bytes, table_bytes, bitmap_bytes, sb_sector, inode_sector,
  bitmap_sector, data_sector, table_image, inode_at, bytes_from, disk_write_bytes, disk_read_bytes,
  flush_blocks, load_blocks, superblock, flush, mount,
}
use hrafn_os.Munin.Disk.Bytes.{IsDevice, stored, disk_read_bytes-at, disk_write_bytes-outside}
use hrafn_os.Munin.Disk.Image.{get32-same, Fits, Same, inode_at-Same}
use hrafn_os.Prelude.{
  ℕ, zero, suc, ◌+◌, ◌*◌, ◌/◌, ◌%◌, ◌≤◌, ◌<◌, ◌≡◌, ◌≢◌, refl, ap, ◌∙◌, true, inl, inr, List, [],
  ◌∷◌, arith, ltb, ◌==◌, lt→ltb, Bool-cases, if◌then◌else◌, get_or, length,
}

length-bytes_from : (n i : ℕ) (m : ℕ → ℕ) → length (bytes_from n i m) ≡ n
unfolding bytes_from
length-bytes_from zero i m = refl
length-bytes_from (suc n) i m = ap suc (length-bytes_from n (i + 1) m)

-- Reading off a list gives the list.
bytes_from_self :
    (n i : ℕ) (m : ℕ → ℕ) (l : List ℕ)
    → length l ≡ n
    → ((k : ℕ) → k < n → m (i + k) ≡ get_or l k 0)
    → bytes_from n i m ≡ l
unfolding bytes_from
bytes_from_self zero i m [] e h = refl
bytes_from_self zero i m (x ∷ xs) e h = absurd (omega arith)
bytes_from_self (suc n) i m [] e h = absurd (omega arith)
bytes_from_self (suc n) i m (x ∷ xs) e h =
    let p : m i ≡ x = subst (λ a. m a ≡ x) {x = i + 0} (omega arith) (h 0 (omega arith)) in
    let q = bytes_from_self n (i + 1) m xs (omega arith) (λ k l.
      subst (λ a. m a ≡ get_or xs k 0) {x = i + suc k} (omega arith) (h (suc k) (omega arith))) in
    rw (p, q) refl

-- The file system that a mount has restored from that of a flush.
pub record Restored (fs fs' : Fs) : Type 0 where
  pub inodes : (i : ℕ) → i < max_inodes → Same (fs'.inodes i) (fs.inodes i)
  pub used : fs'.used ≡ fs.used
  pub bytes :
      (b o : ℕ)
      → b < num_blocks
      → bitmap_test fs.used b ≡ true
      → o < 512
      → fs'.bytes b o ≡ fs.bytes b o

module _ {ℓ} {D : Type ℓ} (dev : Device D) (v : IsDevice dev) where
  one_block-other :
      (b : ℕ) (fs : Fs) (d : D) (s o : ℕ)
      → data_sector + b ≢ s
      → dev.read s
          (if bitmap_test fs.used b then dev.store (data_sector + b) (fs.bytes b) d else d)
          o
        ≡ dev.read s d o
  one_block-other b fs d s o ne = elim (Bool-cases (bitmap_test fs.used b)) [
    | inl e ↦ rw e (v.other (data_sector + b) s (fs.bytes b) d o ne)
    | inr e ↦ rw e refl
  ]

  flush_blocks-before :
      (n b : ℕ) (fs : Fs) (d : D) (s o : ℕ)
      → s < data_sector + b
      → dev.read s (flush_blocks dev n b fs d) o ≡ dev.read s d o
  unfolding flush_blocks
  flush_blocks-before zero b fs d s o l = refl
  flush_blocks-before (suc n) b fs d s o l =
      flush_blocks-before n (b + 1) fs _ s o (omega arith)
      ∙ one_block-other b fs d s o (λ e. omega arith)

  flush_blocks-at :
      (n b : ℕ) (fs : Fs) (d : D) (k o : ℕ)
      → o < 512
      → b ≤ k
      → k < b + n
      → bitmap_test fs.used k ≡ true
      → dev.read (data_sector + k) (flush_blocks dev n b fs d) o ≡ fs.bytes k o
  unfolding flush_blocks
  flush_blocks-at zero b fs d k o lo l r u = absurd (omega arith)
  flush_blocks-at (suc n) b fs d k o lo l r u = elim (Bool-cases (k == b)) [
    | inl e ↦
        let q : k ≡ b = ground arith in
        let u' : bitmap_test fs.used b ≡ true = rw (← q) u in
        rw q (
          flush_blocks-before n (b + 1) fs _ (data_sector + b) o (omega arith)
          ∙ rw u' (v.same (data_sector + b) (fs.bytes b) d o lo))
    | inr e ↦ flush_blocks-at n (b + 1) fs _ k o lo (ground arith) (omega arith) u
  ]

  -- Loading changes the contents of used blocks only.
  load_blocks-used :
      (n b : ℕ) (d : D) (fs : Fs)
      → ((load_blocks dev n b d fs).used ≡ fs.used)
        × ((load_blocks dev n b d fs).inodes ≡ fs.inodes)
  unfolding load_blocks
  load_blocks-used zero b d fs = (refl, refl)
  load_blocks-used (suc n) b d fs = elim (Bool-cases (bitmap_test fs.used b)) [
    | inl e ↦
        rw (load_blocks, e)
          (load_blocks-used n (b + 1) d
            (record fs { bytes = write fs.bytes b (dev.read (data_sector + b) d) }))
    | inr e ↦ rw (load_blocks, e) (load_blocks-used n (b + 1) d fs)
  ]

  load_blocks-before :
      (n b : ℕ) (d : D) (fs : Fs) (k : ℕ) → k < b → (load_blocks dev n b d fs).bytes k ≡ fs.bytes k
  unfolding load_blocks
  load_blocks-before zero b d fs k l = refl
  load_blocks-before (suc n) b d fs k l = elim (Bool-cases (bitmap_test fs.used b)) [
    | inl e ↦ rw (load_blocks, e) (load_blocks-before n (b + 1) d _ k (omega arith) ∙ ground arith)
    | inr e ↦ rw (load_blocks, e) (load_blocks-before n (b + 1) d fs k (omega arith))
  ]

  load_blocks-at :
      (n b : ℕ) (d : D) (fs : Fs) (k : ℕ)
      → b ≤ k
      → k < b + n
      → bitmap_test fs.used k ≡ true
      → (load_blocks dev n b d fs).bytes k ≡ dev.read (data_sector + k) d
  unfolding load_blocks
  load_blocks-at zero b d fs k l r u = absurd (omega arith)
  load_blocks-at (suc n) b d fs k l r u = elim (Bool-cases (k == b)) [
    | inl e ↦
        let q : k ≡ b = ground arith in
        let u' : bitmap_test fs.used b ≡ true = rw (← q) u in
        rw (q, load_blocks, u') (load_blocks-before n (b + 1) d _ b (omega arith) ∙ ground arith)
    | inr e ↦ elim (Bool-cases (bitmap_test fs.used b)) [
      | inl t ↦ rw (load_blocks, t) (load_blocks-at n (b + 1) d _ k (ground arith) (omega arith) u)
      | inr t ↦ rw (load_blocks, t) (load_blocks-at n (b + 1) d fs k (ground arith) (omega arith) u)
    ]
  ]

  -- Bytes that were written, in a later state that has their sectors as they were.
  read_back :
      (start n : ℕ) (src dst : ℕ → ℕ) (d d0 : D) (a : ℕ)
      → a < n
      → ((s o : ℕ)
          → s < start + (n + 511) / 512
          → start ≤ s
          → dev.read s d o ≡ dev.read s (disk_write_bytes dev start src n d0) o)
      → disk_read_bytes dev start dst n d a ≡ src a
  read_back start n src dst d d0 a l h =
      disk_read_bytes-at dev v start n dst d a
      ∙ rw (lt→ltb _ _ l) (
          h (start + a / 512) (a % 512) (omega arith) (omega arith)
          ∙ stored dev v start n a src d0 l)

  module _ (fs fs0 : Fs) (d : D) (used_length : length fs.used ≡ bitmap_bytes)
      (fits : (i : ℕ) → i < max_inodes → Fits (fs.inodes i)) where
    abbrev d1 : D
    d1 = dev.store sb_sector superblock d

    abbrev d2 : D
    d2 = disk_write_bytes dev inode_sector (table_image fs.inodes) table_bytes d1

    abbrev used_byte : ℕ → ℕ
    used_byte o = get_or fs.used o 0

    abbrev d3 : D
    d3 = disk_write_bytes dev bitmap_sector used_byte bitmap_bytes d2

    abbrev flushed : D
    flushed = flush_blocks dev num_blocks 0 fs d3

    superblock_there : (o : ℕ) → o < 512 → dev.read sb_sector flushed o ≡ superblock o
    superblock_there o l =
        flush_blocks-before num_blocks 0 fs d3 sb_sector o (omega arith)
        ∙ disk_write_bytes-outside dev v bitmap_sector bitmap_bytes used_byte d2 sb_sector o
            (inl (omega arith))
        ∙ disk_write_bytes-outside dev v inode_sector table_bytes (table_image fs.inodes) d1
            sb_sector o (inl (omega arith))
        ∙ v.same sb_sector superblock d o l

    header_fields :
        (get32 (dev.read sb_sector flushed) 0 ≡ magic)
        × (get32 (dev.read sb_sector flushed) 4 ≡ version)
        × (get32 (dev.read sb_sector flushed) 8 ≡ max_inodes)
        × (get32 (dev.read sb_sector flushed) 12 ≡ num_blocks)
    unfolding superblock get32 put32
    header_fields = (
      field 0 (omega arith),
      field 4 (omega arith),
      field 8 (omega arith),
      field 12 (omega arith),
    )
      where
        field : (a : ℕ) → a < 500 → get32 (dev.read sb_sector flushed) a ≡ get32 superblock a
        field a l =
            get32-same (dev.read sb_sector flushed) superblock a
              (λ k lk. superblock_there (a + k) (omega arith))

    abbrev table : ℕ → ℕ
    table = disk_read_bytes dev inode_sector (table_image fs0.inodes) table_bytes flushed

    table_there : (a : ℕ) → a < table_bytes → table a ≡ table_image fs.inodes a
    table_there a l =
        read_back inode_sector table_bytes (table_image fs.inodes) (table_image fs0.inodes) flushed
          d1 a l
          (λ s o hi lo.
            flush_blocks-before num_blocks 0 fs d3 s o (omega arith)
            ∙ disk_write_bytes-outside dev v bitmap_sector bitmap_bytes used_byte d2 s o
                (inl (omega arith)))

    abbrev used_there : ℕ → ℕ
    used_there = disk_read_bytes dev bitmap_sector (λ o. get_or fs0.used o 0) bitmap_bytes flushed

    used_back : bytes_from bitmap_bytes 0 used_there ≡ fs.used
    used_back = bytes_from_self bitmap_bytes 0 used_there fs.used used_length (λ k l.
        read_back bitmap_sector bitmap_bytes used_byte (λ o. get_or fs0.used o 0) flushed d2 (0 + k)
          (omega arith) (λ s o hi lo. flush_blocks-before num_blocks 0 fs d3 s o (omega arith))
        ∙ ap used_byte (omega arith))

    abbrev loading : Fs
    loading = record fs0 {
      inodes = λ i. if ltb i max_inodes then inode_at table (i * inode_bytes) else fs0.inodes i;
      used = bytes_from bitmap_bytes 0 used_there;
    }

    restored : Restored fs (load_blocks dev num_blocks 0 flushed loading)
    restored =
        let (same_used, same_inodes) = load_blocks-used num_blocks 0 flushed loading in
        record {
          inodes = λ i l.
              rw (same_inodes, lt→ltb _ _ l)
                (inode_at-Same table fs.inodes i l (fits i l) table_there);
          used = same_used ∙ used_back;
          bytes = λ b o l u lo.
              let u' : bitmap_test loading.used b ≡ true = rw used_back u in
              rw (load_blocks-at num_blocks 0 flushed loading b (omega arith) (omega arith) u')
                (flush_blocks-at num_blocks 0 fs d3 b o lo (omega arith) (omega arith) u);
        }

  -- On a device whose sectors read back as stored, with a bitmap of its size and inodes that fit their
  -- C types: `munin_mount` after `munin_flush` succeeds from any state of the region, and gives back the
  -- inodes, the bitmap and the contents of the used blocks.
  pub mount-flush :
      (fs fs0 : Fs) (d : D)
      → length fs.used ≡ bitmap_bytes
      → ((i : ℕ) → i < max_inodes → Fits (fs.inodes i))
      → ((mount dev (flush dev fs d) fs0).0 ≡ true) × Restored fs (mount dev (flush dev fs d) fs0).1
  unfolding mount flush
  mount-flush fs fs0 d used_length fits =
      let (m, ver, i, b) = header_fields fs fs0 d used_length fits in
      rw (m, ver, i, b) (refl, restored fs fs0 d used_length fits)
