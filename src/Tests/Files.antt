-- ===== src/Tests/Files.antt =====
-- kernel/munin.cpp, kernel/vfs.cpp and the paths of huginn.cpp at concrete inputs.
use hrafn_os.Bitmap.Laws.{IsBytes-replicate}
use hrafn_os.Sched.Types.{FileDesc, runnable}
use hrafn_os.Munin.Store.{write, Fs, no_block, alloc_block, alloc_inode, direct_block, fresh_inode}
use hrafn_os.Munin.Store.Alloc.{
  BlockOutcome, InodeOutcome, alloc_block-BlockOutcome, alloc_inode-InodeOutcome,
}
use hrafn_os.Munin.Store.Direct.{ptr, Sound, MapOutcome, direct_block-MapOutcome}
use hrafn_os.Munin.Path.{slash, resolve_n, skip_slashes, span}
use hrafn_os.Munin.Path.Walk.{components, descend, resolve_n-descend}
use mathlib.Core.Option.{some-injective}
use hrafn_os.Ramdisk.{Entry}
use hrafn_os.Ramdisk.Names.{FirstOf}
use hrafn_os.Munin.Disk.{Device, flush, mount, disk_read_bytes, disk_write_bytes}
use hrafn_os.Munin.Disk.Bytes.{IsDevice, disk_read_bytes-disk_write_bytes}
use hrafn_os.Munin.Disk.Image.{Fits}
use hrafn_os.Munin.Disk.Mount.{Restored, mount-flush}
use hrafn_os.Vfs.{Vfs, open_inode, close_fd}
use hrafn_os.Vfs.Fds.{Opened, open_inode-Opened, close_fd-cases, ClosedBy, RefusedBy}
use hrafn_os.Huginn.{resolve_path, resolve_from, add_component, pop_component, back_to_slash}
use hrafn_os.Huginn.Resolve.{edits, resolve_path-edits}
use hrafn_os.Huginn.Names.{AllNames, NoSlash, spell, path_of}
use hrafn_os.Prelude.{
  replicate, ◌%◌, zero, suc, ap, ℕ, ◌≡◌, ◌≢◌, refl, true, false, List, [], ◌∷◌, arith, ◌==◌,
  if◌then◌else◌, set, replicate, length, ◌<◌, get_elem?, some, get_or, suc, ◌&&◌, ◌⊎◌,
}

-- The root directory alone, with no blocks.
abbrev empty_fs : Fs
empty_fs = record {
  inodes = λ i. if i == 0 then fresh_inode 2 else fresh_inode 0;
  bytes = λ b o. 0;
  used = replicate 64 0;
}

empty_fs-Sound : Sound empty_fs
unfolding ptr
empty_fs-Sound = record {
  bits = record { bytes = IsBytes-replicate 64 0 (omega arith); room = refl };
  inside = λ i b l lb n. absurd (n (hole i b));
  alone = λ i j b c li lj lb lc n e. absurd (n (hole i b));
}
  where
    hole : (i b : ℕ) → ptr empty_fs i b ≡ no_block
    hole i b = ground arith

alloc_block-BlockOutcome_example : BlockOutcome empty_fs (alloc_block empty_fs)
alloc_block-BlockOutcome_example = alloc_block-BlockOutcome empty_fs

alloc_inode-InodeOutcome_example : InodeOutcome 1 empty_fs (alloc_inode 1 empty_fs)
alloc_inode-InodeOutcome_example = alloc_inode-InodeOutcome 1 empty_fs

direct_block-MapOutcome_example : MapOutcome empty_fs 0 3 (direct_block 0 3 true empty_fs)
direct_block-MapOutcome_example =
    direct_block-MapOutcome empty_fs 0 3 empty_fs-Sound (λ e. omega arith) (omega arith)

-- "docs//a"
abbrev docs_a : List ℕ
docs_a = 100 ∷ 111 ∷ 99 ∷ 115 ∷ 47 ∷ 47 ∷ 97 ∷ []

resolve_n-descend_example :
    resolve_n (slash ∷ docs_a) empty_fs ≡ descend (components docs_a) 0 empty_fs
resolve_n-descend_example = resolve_n-descend docs_a empty_fs

-- The working directory "/b".
b_IsDirectory : AllNames ((98 ∷ []) ∷ [])
unfolding AllNames NoSlash
b_IsDirectory = ((omega arith, (refl, tt)), tt)

-- docs//a from "/b"
resolve_path-edits_example :
    let names = edits (components docs_a) ((98 ∷ []) ∷ []) in
    (resolve_path (47 ∷ 98 ∷ []) docs_a ≡ some (path_of names))
    × (length (path_of names) < 128)
    × AllNames names
unfolding spell
resolve_path-edits_example = resolve_path-edits ((98 ∷ []) ∷ []) docs_a b_IsDirectory (omega arith)

-- "../x" from "/b" is "/x"
parent_of_b : resolve_path (47 ∷ 98 ∷ []) (46 ∷ 46 ∷ 47 ∷ 120 ∷ []) ≡ some (47 ∷ 120 ∷ [])
unfolding resolve_path resolve_from add_component pop_component back_to_slash skip_slashes span
parent_of_b = refl

-- two programs of one name: the first counts
abbrev programs : List Entry
programs =
    record { name = 49 ∷ []; start = 100; stop = 150 }
    ∷ record { name = 50 ∷ []; start = 200; stop = 270 }
    ∷ record { name = 50 ∷ []; start = 300; stop = 310 }
    ∷ []

second_is_first : FirstOf programs 1 (record { name = 50 ∷ []; start = 200; stop = 270 })
second_is_first = (refl, below)
  where
    below : (j : ℕ) (d : Entry) → j < 1 → get_elem? programs j ≡ some d → d.name ≢ 50 ∷ []
    below zero d l q e =
        let n = ap (λ x. get_or x.name 0 0) (some-injective _ d q) in
        let m = ap (λ x. get_or x 0 0) e in omega arith
    below (suc j) d l q e = absurd (omega arith)

abbrev closed : FileDesc
closed = record { used = false; inode = 0; offset = 0; kind = 0 }

-- One task, with descriptor 3 open on the root directory.
abbrev one_open : Vfs
one_open = record {
  sched = record {
    current = 16;
    tasks = λ _. record {
      rsp = 0;
      next = 16;
      parent = 0;
      fds = set (replicate 16 closed) 3 (record { used = true; inode = 0; offset = 0; kind = 2 });
      state = runnable;
      wake_tick = 0;
      kstack_top = 0;
      kstack_base = 0;
      pml4 = 0;
    };
    g_ticks = 0;
    next_pid = 1;
    frames = λ _. record {
      r15 = 0;
      r14 = 0;
      r13 = 0;
      r12 = 0;
      r11 = 0;
      r10 = 0;
      r9 = 0;
      r8 = 0;
      rbp = 0;
      rdi = 0;
      rsi = 0;
      rdx = 0;
      rcx = 0;
      rbx = 0;
      rax = 0;
      int_no = 0;
      err_code = 0;
      rip = 0;
      cs = 0;
      rflags = 0;
      rsp = 0;
      ss = 0;
    };
  };
  fs = empty_fs;
}

open_inode-Opened_example : Opened 0 2 one_open (open_inode 0 2 0 one_open)
open_inode-Opened_example = open_inode-Opened 0 2 0 one_open refl

close_fd-cases_example :
    ClosedBy 3 one_open (close_fd 3 one_open) ⊎ RefusedBy 3 one_open (close_fd 3 one_open)
close_fd-cases_example = close_fd-cases 3 one_open refl

-- A device of sectors in memory.
abbrev ram_disk : Device (ℕ → ℕ → ℕ)
ram_disk = record { read = λ s d. d s; store = λ s b d. write d s b }

ram_disk-IsDevice : IsDevice ram_disk
ram_disk-IsDevice = record { same = λ s b d o l. ground arith; other = λ s t b d o n. ground arith }

-- 600 bytes from sector 5 on
disk_read_bytes-disk_write_bytes_example :
    disk_read_bytes ram_disk 5
      (λ _. 7)
      600
      (disk_write_bytes ram_disk 5 (λ a. a % 256) 600 (λ _ _. 0))
      599
    ≡ 599 % 256
disk_read_bytes-disk_write_bytes_example =
    disk_read_bytes-disk_write_bytes ram_disk ram_disk-IsDevice 5 600 (λ a. a % 256) (λ _. 7)
      (λ _ _. 0) 599

-- A file of 700 bytes in block 3, the only used one.
abbrev one_file : Fs
one_file = record {
  inodes = λ i. record {
    kind = if i == 5 then 1 else 0;
    size = if i == 5 then 700 else 0;
    blocks = λ b. if (i == 5) && (b == 0) then 3 else no_block;
    indirect = no_block;
  };
  bytes = λ b o. if b == 3 then o % 256 else 0;
  used = 8 ∷ replicate 63 0;
}

one_file-Fits : (i : ℕ) → i < 128 → Fits (one_file.inodes i)
one_file-Fits i l = record {
  size = ground arith;
  blocks = λ b lb. ground arith;
  indirect = omega arith;
}

mount-flush_example :
    let (ok, fs) = mount ram_disk (flush ram_disk one_file (λ _ _. 0)) empty_fs in
    (ok ≡ true) × Restored one_file fs
mount-flush_example =
    mount-flush ram_disk ram_disk-IsDevice one_file empty_fs (λ _ _. 0) refl one_file-Fits
