-- ===== src/Munin/Path.antt =====
-- Paths in kernel/munin.cpp: `resolve_n`, creation and removal by path. A path is the list of its bytes
-- without the NUL, so `path[i]` for i < len is an element and `str_len` is the length.
pub mod Walk
use hrafn_os.Words.{u32}
use hrafn_os.Munin.Store.{Fs, direct, max_name, inode_free, inode_dir, set_inode, free_inode_blocks}
use hrafn_os.Munin.Dir.{no_inode, entry_inode, set_entry_inode, entry_from, dir_lookup, create}
use hrafn_os.Prelude.{
  ℕ, zero, suc, ◌+◌, ◌-◌, ◌^◌, Bool, true, false, not, ◌&&◌, ◌||◌, List, [], ◌∷◌, Option, none,
  some, ltb, leb, ◌==◌, if◌then◌else◌, get_or, take, drop, length,
}

-- '/'
abbrev pub slash : ℕ
slash = 47

-- MUNIN_ROOT
abbrev pub root : ℕ
root = 0

-- `while (i < len && path[i] == '/') i++`
unfoldable pub skip_slashes : List ℕ → List ℕ
skip_slashes [] = []
skip_slashes (c ∷ cs) = let rest = skip_slashes cs in if c == slash then rest else c ∷ cs

-- `while (i < len && path[i] != '/') i++`: the component spanned, and what follows
unfoldable pub span : List ℕ → List ℕ × List ℕ
span [] = ([], [])
span (c ∷ cs) = let (name, rest) = span cs in if c == slash then ([], c ∷ cs) else (c ∷ name, rest)

-- the loop of `resolve_n` at directory `cur`, with the characters that are left; every round but the
-- last takes at least one
pub walk : ℕ → List ℕ → ℕ → Fs → Option ℕ
walk zero cs cur fs = some cur
walk (suc fuel) cs cur fs = elim (skip_slashes cs) [
  | [] ↦ some cur
  | c ∷ cs' ↦
      let (name, rest) = span (c ∷ cs') in
      if not ((fs.inodes cur).kind == inode_dir)
      then none
      else elim (dir_lookup cur name fs) [ none ↦ none | some next ↦ walk fuel rest next fs ]
]

-- `resolve_n` on the first characters of a path
pub resolve_n : List ℕ → Fs → Option ℕ
resolve_n [] fs = none
resolve_n (c ∷ cs) fs = if not (c == slash) then none else walk (length cs + 1) cs root fs

-- `while (len > 1 && path[len - 1] == '/') len--`, on a length
pub strip_from : ℕ → List ℕ → ℕ
strip_from zero path = zero
strip_from (suc n) path =
    let rest = strip_from n path in if ltb 0 n && (get_or path n 0 == slash) then rest else suc n

-- `for (i = 0; i < len; i++) if (path[i] == '/') slash = i`
pub last_slash : ℕ → List ℕ → ℕ
last_slash zero path = 0
last_slash (suc n) path =
    let rest = last_slash n path in if get_or path n 0 == slash then n else rest

-- The parent directory and the name a path ends in, as `munin_create_path` and `munin_unlink` take it
-- apart; `len` is the length without trailing slashes.
pub parent_of : List ℕ → ℕ → Fs → Option (ℕ × List ℕ)
parent_of path len fs =
    let s = last_slash len path in
    let name = take (len - (s + 1)) (drop (s + 1) path) in
    let name_len = len - (s + 1) in
    let parent = if s == 0 then some root else resolve_n (take s path) fs in
    if (name_len == 0) || leb max_name name_len then none else elim parent [
      | none ↦ none
      | some p ↦ if not ((fs.inodes p).kind == inode_dir) then none else some (p, name)
    ]

pub create_path : List ℕ → ℕ → Fs → Option ℕ × Fs
create_path path kind fs =
    if not (get_or path 0 0 == slash)
    then (none, fs)
    else elim (parent_of path (strip_from (length path) path) fs) [
      | none ↦ (none, fs)
      | some (p, name) ↦ create p name kind fs
    ]

pub mkdir : List ℕ → Fs → Option ℕ × Fs
mkdir path fs = create_path path inode_dir fs

-- the removal of `munin_unlink` once the entry is found in slot `k` of `blk`
pub remove_entry : ℕ → ℕ → ℕ → Fs → Bool × Fs
remove_entry p blk k fs =
    let ino = entry_inode blk k fs in
    let c = fs.inodes ino in
    let fs1 = free_inode_blocks ino fs in
    let fs2 = set_inode fs1 ino (record (fs1.inodes ino) { kind = inode_free }) in
    let fs3 = set_entry_inode blk k no_inode fs2 in
    let d = fs3.inodes p in
    if (c.kind == inode_dir) && not (c.size == 0)
    then (false, fs)
    else (true, set_inode fs3 p (record d { size = u32 (d.size + (2 ^ 32 - 1)) }))

-- `munin_unlink`; `true` is 0, `false` is -1
pub unlink : List ℕ → Fs → Bool × Fs
unlink path fs =
    let len = strip_from (length path) path in
    if not (get_or path 0 0 == slash)
    then (false, fs)
    else if leb len 1
    then (false, fs)
    else elim (parent_of path len fs) [
      | none ↦ (false, fs)
      | some (p, name) ↦ elim (entry_from direct 0 p name fs) [
        | none ↦ (false, fs)
        | some (blk, k) ↦ remove_entry p blk k fs
      ]
    ]
