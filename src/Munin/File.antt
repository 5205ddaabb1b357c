-- ===== src/Munin/File.antt =====
-- File data in kernel/munin.cpp: whole-file `munin_write` and `munin_read`, and the primitives with an
-- offset under the file descriptors. A buffer is a function from offsets to bytes. The chunk loops take
-- fuel; a round moves at least one byte.
use hrafn_os.Words.{u32}
use hrafn_os.Munin.Store.{
  max_inodes, block_size, max_blocks, no_block, inode_file, direct, Inode, Fs, write, set_inode,
  block_for, free_inode_blocks,
}
use hrafn_os.Prelude.{
  ℕ, zero, suc, ◌+◌, ◌-◌, ◌*◌, ◌/◌, ◌%◌, Bool, true, false, not, Option, none, some, ltb, leb, ◌==◌,
  if◌then◌else◌,
}

-- `for (i = 0; i < n; i++) dst[d + i] = src[s + i]`
pub copy : ℕ → (ℕ → ℕ) → ℕ → (ℕ → ℕ) → ℕ → ℕ → ℕ
copy zero dst d src s = dst
copy (suc n) dst d src s = copy n (write dst d (src s)) (d + 1) src (s + 1)

-- `munin_type` and `munin_size`; `none` is -1
pub type_of : ℕ → Fs → Option ℕ
type_of ino fs = if leb max_inodes ino then none else some (fs.inodes ino).kind

pub size_of : ℕ → Fs → Option ℕ
size_of ino fs = if leb max_inodes ino then none else some (fs.inodes ino).size

-- `true` is 0, `false` is -1
pub truncate : ℕ → Fs → Bool × Fs
truncate ino fs =
    if leb max_inodes ino
    then (false, fs)
    else if not ((fs.inodes ino).kind == inode_file)
    then (false, fs)
    else (true, free_inode_blocks ino fs)

abbrev pub file_cap : ℕ
file_cap = max_blocks * block_size

-- the loop of `munin_write` with `remaining` bytes to go: `src` is at `s`, the next block is `b`;
-- `false` is out of space
pub write_blocks : ℕ → ℕ → ℕ → ℕ → (ℕ → ℕ) → ℕ → Fs → Bool × Fs
write_blocks zero remaining ino b buf s fs = (true, fs)
write_blocks (suc fuel) remaining ino b buf s fs =
    let (blk, fs1) = block_for ino b true fs in
    let chunk = if ltb remaining block_size then remaining else block_size in
    let fs2 = record fs1 { bytes = write fs1.bytes blk (copy chunk (fs1.bytes blk) 0 buf s) } in
    let rest = write_blocks fuel (remaining - chunk) ino (b + 1) buf (s + chunk) fs2 in
    if remaining == 0
    then (true, fs)
    else if blk == no_block
    then (false, free_inode_blocks ino fs1)
    else rest

-- `munin_write` once the path is resolved to `ino`
pub write_file : ℕ → (ℕ → ℕ) → ℕ → Fs → Option ℕ × Fs
write_file ino buf len fs =
    let (ok, fs1) = write_blocks (max_blocks + 1) len ino 0 buf 0 (free_inode_blocks ino fs) in
    if not ((fs.inodes ino).kind == inode_file)
    then (none, fs)
    else if ltb file_cap len
    then (none, fs)
    else if ok
    then (some len, set_inode fs1 ino (record (fs1.inodes ino) { size = len }))
    else (none, fs1)

-- the loop of `munin_read`: `n` bytes are wanted, `copied` are done
pub read_blocks : ℕ → ℕ → ℕ → ℕ → ℕ → (ℕ → ℕ) → Fs → ℕ × (ℕ → ℕ)
read_blocks zero n copied ino b dst fs = (copied, dst)
read_blocks (suc fuel) n copied ino b dst fs =
    let blk = (block_for ino b false fs).0 in
    let chunk = if ltb (n - copied) block_size then n - copied else block_size in
    let rest =
      read_blocks fuel n (copied + chunk) ino (b + 1) (copy chunk dst copied (fs.bytes blk) 0) fs in
    if leb n copied then (copied, dst) else if blk == no_block then (copied, dst) else rest

-- `munin_read` once the path is resolved to `ino`
pub read_file : ℕ → (ℕ → ℕ) → ℕ → Fs → Option ℕ × (ℕ → ℕ)
read_file ino dst len fs =
    let f = fs.inodes ino in
    let n = if ltb f.size len then f.size else len in
    let (copied, out) = read_blocks (max_blocks + 1) n 0 ino 0 dst fs in
    if not (f.kind == inode_file) then (none, dst) else (some copied, out)

-- the loop of `munin_read_inode`: `got` of `len` bytes are done; a hole reads as zeros
unfoldable pub read_from : ℕ → ℕ → ℕ → ℕ → Inode → (ℕ → ℕ) → Fs → ℕ × (ℕ → ℕ)
read_from zero len got offset f dst fs = (got, dst)
read_from (suc fuel) len got offset f dst fs =
    let pos = u32 (offset + got) in
    let b = pos / block_size in
    let boff = pos % block_size in
    let room = block_size - boff in
    let chunk = if ltb (len - got) room then len - got else room in
    let dst' =
      if f.blocks b == no_block
      then copy chunk dst got (λ _. 0) 0
      else copy chunk dst got (fs.bytes (f.blocks b)) boff in
    let rest = read_from fuel len (got + chunk) offset f dst' fs in
    if leb len got then (got, dst) else if leb direct b then (got, dst) else rest

unfoldable pub read_inode : ℕ → (ℕ → ℕ) → ℕ → ℕ → Fs → Option ℕ × (ℕ → ℕ)
read_inode ino dst len offset fs =
    let f = fs.inodes ino in
    let avail = f.size - offset in
    let len' = if ltb avail len then avail else len in
    let (got, out) = read_from (len' + 1) len' 0 offset f dst fs in
    if leb max_inodes ino
    then (none, dst)
    else if not (f.kind == inode_file)
    then (none, dst)
    else if leb f.size offset
    then (some 0, dst)
    else (some got, out)

-- the loop of `munin_write_inode`
pub write_from : ℕ → ℕ → ℕ → ℕ → ℕ → (ℕ → ℕ) → Fs → ℕ × Fs
write_from zero len written offset ino buf fs = (written, fs)
write_from (suc fuel) len written offset ino buf fs =
    let pos = u32 (offset + written) in
    let b = pos / block_size in
    let boff = pos % block_size in
    let (blk, fs1) = block_for ino b true fs in
    let room = block_size - boff in
    let chunk = if ltb (len - written) room then len - written else room in
    let fs2 = record fs1 {
      bytes = write fs1.bytes blk (copy chunk (fs1.bytes blk) boff buf written);
    } in
    let rest = write_from fuel len (written + chunk) offset ino buf fs2 in
    if leb len written then (written, fs) else if blk == no_block then (written, fs1) else rest

pub write_inode : ℕ → (ℕ → ℕ) → ℕ → ℕ → Fs → Option ℕ × Fs
write_inode ino buf len offset fs =
    let len' = if ltb file_cap (u32 (offset + len)) then file_cap - offset else len in
    let (written, fs1) = write_from (file_cap + 1) len' 0 offset ino buf fs in
    let f1 = fs1.inodes ino in
    let end_ = u32 (offset + written) in
    if leb max_inodes ino
    then (none, fs)
    else if not ((fs.inodes ino).kind == inode_file)
    then (none, fs)
    else if leb file_cap offset
    then (none, fs)
    else (
      some written,
      (if ltb f1.size end_ then set_inode fs1 ino (record f1 { size = end_ }) else fs1),
    )
