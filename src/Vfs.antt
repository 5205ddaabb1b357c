-- ===== src/Vfs.antt =====
-- kernel/vfs.cpp: file descriptors of the current task over munin inodes. A descriptor is the
-- source's int as a 32-bit word: a negative one is far above MAX_FDS and refused like it. `none` is -1.
pub mod Fds
use hrafn_os.Words.{u32}
use hrafn_os.Munin.Store.{Fs, inode_file, inode_dir, max_name}
use hrafn_os.Munin.File.{type_of, size_of, truncate, read_inode, write_inode}
use hrafn_os.Munin.Dir.{dirent}
use hrafn_os.Munin.Path.{resolve_n, create_path, mkdir, unlink}
use hrafn_os.Sched.Types.{FileDesc, Task, Sched, max_fds, write}
use hrafn_os.Prelude.{
  ℕ, zero, suc, ◌+◌, ◌-◌, ◌*◌, ◌/◌, ◌%◌, ◌^◌, ◌≤◌, ◌<◌, min, max, ◌≡◌, ◌≢◌, refl, sym, ap, ◌∙◌, ◌↔◌,
  Bool, true, false, not, ◌&&◌, ◌||◌, inl, inr, ◌⊎◌, List, [], ◌∷◌, ◌++◌, map, Option, none, some,
  bit_and, bit_or, bit_xor, arith, ltb, leb, ◌==◌, ==_iff, ltb→lt, lt→ltb, leb→le, tests,
  Bool-cases, Option-cases, if◌then◌else◌, get_or, get_elem?, set, take, drop, replicate, length,
  length-set, length-append, length-map, length-take, length-drop, length-replicate,
  take-append-drop, get_elem?-set_self, get_elem?-set_ne, get_or-set_self, get_or-set_ne,
  get_or-beyond, set-beyond, get_or-replicate,
}

pub record Vfs : Type 0 where
  pub sched : Sched
  pub fs : Fs

abbrev pub o_creat : ℕ
o_creat = 4

abbrev pub o_trunc : ℕ
o_trunc = 8

abbrev pub o_append : ℕ
o_append = 16

abbrev pub no_desc : FileDesc
no_desc = record { used = false; inode = 0; offset = 0; kind = 0 }

-- `t->fds[fd]` of the current task
unfoldable pub desc : ℕ → Vfs → FileDesc
desc fd v = get_or (v.sched.tasks v.sched.current).fds fd no_desc

pub set_desc : ℕ → FileDesc → Vfs → Vfs
set_desc fd d v =
    let s = v.sched in
    let t = s.tasks s.current in
    record v {
      sched = record s { tasks = write s.tasks s.current (record t { fds = set t.fds fd d }) };
    }

-- `!t || fd < 3 || fd >= MAX_FDS`
unfoldable pub bad_fd : ℕ → Vfs → Bool
bad_fd fd v = (v.sched.current == 0) || ltb fd 3 || leb max_fds fd

-- the first free descriptor from `fd` on, with `n` left
pub free_fd_from : ℕ → ℕ → Vfs → Option ℕ
free_fd_from zero fd v = none
free_fd_from (suc n) fd v =
    let rest = free_fd_from n (fd + 1) v in if not (desc fd v).used then some fd else rest

-- The inode that a path opens, created when it is missing and O_CREAT is set.
pub find_or_create : List ℕ → ℕ → Vfs → Option ℕ × Vfs
find_or_create path flags v = elim (resolve_n path v.fs) [
  | some ino ↦ (some ino, v)
  | none ↦
      let (o, fs') = create_path path inode_file v.fs in
      if not (bit_and flags o_creat == 0) then (o, record v { fs = fs' }) else (none, v)
]

-- the search for a free descriptor in `vfs_open`, and its four assignments
pub place : ℕ → ℕ → ℕ → Vfs → Option ℕ × Vfs
place ino ty start v = elim (free_fd_from (max_fds - 3) 3 v) [
  | none ↦ (none, v)
  | some fd ↦
      (some fd, set_desc fd (record { used = true; inode = ino; kind = ty; offset = start }) v)
]

-- the rest of `vfs_open` on inode `ino` of type `ty`
pub open_inode : ℕ → ℕ → ℕ → Vfs → Option ℕ × Vfs
open_inode ino ty flags v =
    let is_file = ty == inode_file in
    let v1 =
      if not (bit_and flags o_trunc == 0) && is_file
      then record v { fs = (truncate ino v.fs).1 }
      else v in
    let start =
      if not (bit_and flags o_append == 0) && is_file
      then elim (size_of ino v1.fs) [ none ↦ 0 | some sz ↦ sz ]
      else 0 in
    place ino ty start v1

pub open_found : ℕ → Option ℕ × Vfs → Option ℕ × Vfs
open_found flags (none, v) = (none, v)
open_found flags (some ino, v) = elim (type_of ino v.fs) [
  | none ↦ (none, v)
  | some ty ↦
      if not (ty == inode_file) && not (ty == inode_dir)
      then (none, v)
      else open_inode ino ty flags v
]

pub open_path : List ℕ → ℕ → Vfs → Option ℕ × Vfs
open_path path flags v =
    if v.sched.current == 0 then (none, v) else open_found flags (find_or_create path flags v)

-- `true` is 0, `false` is -1
pub close_fd : ℕ → Vfs → Bool × Vfs
close_fd fd v =
    let d = desc fd v in
    if bad_fd fd v
    then (false, v)
    else if not d.used
    then (false, v)
    else (true, set_desc fd (record d { used = false }) v)

-- `if (n > 0) f->offset += n`
pub advance : ℕ → Option ℕ → Vfs → Vfs
advance fd none v = v
advance fd (some n) v =
    let d = desc fd v in
    if ltb 0 n then set_desc fd (record d { offset = u32 (d.offset + n) }) v else v

pub read_fd : ℕ → (ℕ → ℕ) → ℕ → Vfs → Option ℕ × (ℕ → ℕ) × Vfs
read_fd fd buf len v =
    let d = desc fd v in
    let (n, out) = read_inode d.inode buf len d.offset v.fs in
    if bad_fd fd v
    then (none, buf, v)
    else if not d.used || not (d.kind == inode_file)
    then (none, buf, v)
    else (n, out, advance fd n v)

pub write_fd : ℕ → (ℕ → ℕ) → ℕ → Vfs → Option ℕ × Vfs
write_fd fd buf len v =
    let d = desc fd v in
    let (n, fs') = write_inode d.inode buf len d.offset v.fs in
    if bad_fd fd v
    then (none, v)
    else if not d.used || not (d.kind == inode_file)
    then (none, v)
    else (n, advance fd n (record v { fs = fs' }))

pub readdir_fd : ℕ → ℕ → Vfs → Option (ℕ × List ℕ)
readdir_fd fd index v =
    let d = desc fd v in
    if bad_fd fd v
    then none
    else if not d.used || not (d.kind == inode_dir)
    then none
    else dirent d.inode index max_name v.fs

pub mkdir_path : List ℕ → Vfs → Bool × Vfs
mkdir_path path v =
    let (o, fs') = mkdir path v.fs in
    (elim o [ none ↦ false | some _ ↦ true ], record v { fs = fs' })

pub unlink_path : List ℕ → Vfs → Bool × Vfs
unlink_path path v = let (ok, fs') = unlink path v.fs in (ok, record v { fs = fs' })
