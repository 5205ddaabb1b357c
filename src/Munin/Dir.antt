-- ===== src/Munin/Dir.antt =====
-- Directories in kernel/munin.cpp. A directory's data blocks hold 14 entries of 36 bytes: the child's
-- inode, -1 in an empty slot, and a NUL-terminated name of at most 31 bytes. A name is a list of its
-- bytes, without the NUL.
use hrafn_os.Words.{u32}
use hrafn_os.Munin.Store.{
  Fs, max_inodes, no_block, direct, max_name, inode_free, inode_dir, write, set_inode, get32, put32,
  alloc_block, alloc_inode,
}
use hrafn_os.Prelude.{
  ℕ, zero, suc, ◌+◌, ◌-◌, ◌*◌, Bool, true, false, not, ◌&&◌, ◌||◌, List, [], ◌∷◌, Option, none,
  some, ltb, leb, ◌==◌, if◌then◌else◌, take, replicate, length,
}

-- sizeof(Dirent)
abbrev pub dirent_size : ℕ
dirent_size = 36

-- DIRENTS_PER_BLOCK
abbrev pub per_block : ℕ
per_block = 14

-- the inode field of an empty slot: -1 as a 32-bit word
abbrev pub no_inode : ℕ
no_inode = 0xFFFFFFFF

-- `de[k].inode` in block `blk`
pub entry_inode : ℕ → ℕ → Fs → ℕ
entry_inode blk k fs = get32 (fs.bytes blk) (k * dirent_size)

pub set_entry_inode : ℕ → ℕ → ℕ → Fs → Fs
set_entry_inode blk k v fs = record fs {
  bytes = write fs.bytes blk (put32 (fs.bytes blk) (k * dirent_size) v);
}

-- Is the NUL-terminated name at `off` of a block the given one?
pub name_at : List ℕ → (ℕ → ℕ) → ℕ → Bool
name_at [] m off = m off == 0
name_at (c ∷ cs) m off =
    let rest = name_at cs m (off + 1) in if not (m off == 0) && (m off == c) then rest else false

-- the slot of block `blk` that holds `name`, from slot `k` on
pub slot_of_from : ℕ → ℕ → ℕ → List ℕ → Fs → Option ℕ
slot_of_from zero k blk name fs = none
slot_of_from (suc n) k blk name fs =
    let rest = slot_of_from n (k + 1) blk name fs in
    if entry_inode blk k fs == no_inode
    then rest
    else if name_at name (fs.bytes blk) (k * dirent_size + 4)
    then some k
    else rest

-- the block and the slot that hold `name`, from block `b` of the directory on
pub entry_from : ℕ → ℕ → ℕ → List ℕ → Fs → Option (ℕ × ℕ)
entry_from zero b dir name fs = none
entry_from (suc n) b dir name fs =
    let blk = (fs.inodes dir).blocks b in
    let rest = entry_from n (b + 1) dir name fs in
    if blk == no_block
    then rest
    else elim (slot_of_from per_block 0 blk name fs) [ none ↦ rest | some k ↦ some (blk, k) ]

pub dir_lookup : ℕ → List ℕ → Fs → Option ℕ
dir_lookup dir name fs = elim (entry_from direct 0 dir name fs) [
  | none ↦ none
  | some (blk, k) ↦ some (entry_inode blk k fs)
]

-- `for (k = 0; k < DIRENTS_PER_BLOCK; k++) de[k].inode = -1`
pub clear_slots : ℕ → ℕ → Fs → Fs
clear_slots zero blk fs = fs
clear_slots (suc n) blk fs = set_entry_inode blk n no_inode (clear_slots n blk fs)

-- a block for slot `b` of a directory that has not grown into it; `false` is a full region
pub grow : ℕ → ℕ → Fs → Bool × Fs
grow dir b fs =
    let (o, fs') = alloc_block fs in
    elim o [
      | none ↦ (false, fs')
      | some blk ↦
          let f = fs'.inodes dir in
          (
            true,
            clear_slots per_block blk
                (set_inode fs' dir (record f { blocks = write f.blocks b blk })),
          )
    ]

-- the first empty slot of block `blk`
pub empty_slot_from : ℕ → ℕ → ℕ → Fs → Option ℕ
empty_slot_from zero k blk fs = none
empty_slot_from (suc n) k blk fs =
    let rest = empty_slot_from n (k + 1) blk fs in
    if entry_inode blk k fs == no_inode then some k else rest

pub put_string : (ℕ → ℕ) → ℕ → List ℕ → ℕ → ℕ
put_string m off [] = write m off 0
put_string m off (c ∷ cs) = put_string (write m off c) (off + 1) cs

-- slot `k` of `blk` becomes `name`, cut to 31 bytes, and `child`; the directory's size grows by one
pub fill_slot : ℕ → ℕ → ℕ → List ℕ → ℕ → Fs → Fs
fill_slot dir blk k name child fs =
    let fs1 = set_entry_inode blk k child fs in
    let fs2 = record fs1 {
      bytes =
          write fs1.bytes blk
            (put_string (fs1.bytes blk) (k * dirent_size + 4) (take (max_name - 1) name));
    } in
    let d = fs2.inodes dir in set_inode fs2 dir (record d { size = u32 (d.size + 1) })

pub add_from : ℕ → ℕ → ℕ → List ℕ → ℕ → Fs → Bool × Fs
add_from zero b dir name child fs = (false, fs)
add_from (suc n) b dir name child fs =
    let (ok, fs1) = if (fs.inodes dir).blocks b == no_block then grow dir b fs else (true, fs) in
    let blk = (fs1.inodes dir).blocks b in
    let rest = add_from n (b + 1) dir name child fs1 in
    if not ok then (false, fs1) else elim (empty_slot_from per_block 0 blk fs1) [
      | none ↦ rest
      | some k ↦ (true, fill_slot dir blk k name child fs1)
    ]

pub add_dirent : ℕ → List ℕ → ℕ → Fs → Bool × Fs
add_dirent dir name child fs = add_from direct 0 dir name child fs

-- `munin_init`: every inode and every block is free but inode 0, the empty root directory.
pub init : Fs → Fs
init fs =
    let fs1 = record fs {
      inodes =
          λ i. if ltb i max_inodes then record (fs.inodes i) { kind = inode_free } else fs.inodes i;
      used = replicate 64 0;
    } in
    (alloc_inode inode_dir fs1).1

-- The dirent for a fresh inode, or the roll-back that frees the inode.
pub link_or_free : ℕ → List ℕ → Option ℕ × Fs → Option ℕ × Fs
link_or_free dir name (none, fs) = (none, fs)
link_or_free dir name (some ino, fs) =
    let (ok, fs1) = add_dirent dir name ino fs in
    if not ok
    then (none, set_inode fs1 ino (record (fs1.inodes ino) { kind = inode_free }))
    else (some ino, fs1)

-- `munin_create`; `none` is -1
pub create : ℕ → List ℕ → ℕ → Fs → Option ℕ × Fs
create dir name kind fs =
    let nl = length name in
    if leb max_inodes dir
    then (none, fs)
    else if not ((fs.inodes dir).kind == inode_dir)
    then (none, fs)
    else if (nl == 0) || leb max_name nl
    then (none, fs)
    else elim (dir_lookup dir name fs) [
      | some _ ↦ (none, fs)
      | none ↦ link_or_free dir name (alloc_inode kind fs)
    ]

-- the scan of `munin_dirent` over the slots of one block: `seen` used slots came before
pub nth_in_block : ℕ → ℕ → ℕ → ℕ → ℕ → Fs → Option ℕ × ℕ
nth_in_block zero k seen index blk fs = (none, seen)
nth_in_block (suc n) k seen index blk fs =
    let rest = nth_in_block n (k + 1) seen index blk fs in
    let next = nth_in_block n (k + 1) (seen + 1) index blk fs in
    if entry_inode blk k fs == no_inode
    then rest
    else if seen == index
    then (some k, seen)
    else next

-- the scan over the blocks, from block `b` on: the block and slot of entry `index`
pub nth_from : ℕ → ℕ → ℕ → ℕ → ℕ → Fs → Option (ℕ × ℕ)
nth_from zero b seen index dir fs = none
nth_from (suc n) b seen index dir fs =
    let blk = (fs.inodes dir).blocks b in
    let (o, seen') = nth_in_block per_block 0 seen index blk fs in
    let skipped = nth_from n (b + 1) seen index dir fs in
    let rest = nth_from n (b + 1) seen' index dir fs in
    if blk == no_block then skipped else elim o [ none ↦ rest | some k ↦ some (blk, k) ]

-- `for (i = 0; i + 1 < cap && name[i]; i++) name_out[i] = name[i]`, with what was copied as a list
pub name_of : ℕ → (ℕ → ℕ) → ℕ → List ℕ
name_of zero m off = []
name_of (suc n) m off = let rest = name_of n m (off + 1) in if m off == 0 then [] else m off ∷ rest

-- `munin_dirent` with `cap` bytes of room: the child's type and name, 0 past the end, `none` for -1
pub dirent : ℕ → ℕ → ℕ → Fs → Option (ℕ × List ℕ)
dirent dir index cap fs =
    if leb max_inodes dir
    then none
    else if not ((fs.inodes dir).kind == inode_dir)
    then none
    else if cap == 0
    then none
    else elim (nth_from direct 0 0 index dir fs) [
      | none ↦ some (0, [])
      | some (blk, k) ↦ some (
        (fs.inodes (entry_inode blk k fs)).kind,
        name_of (cap - 1) (fs.bytes blk) (k * dirent_size + 4),
      )
    ]
