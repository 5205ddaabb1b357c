-- ===== src/Vfs/Fds.antt =====
-- Descriptors in kernel/vfs.cpp: `vfs_open` takes the lowest free one and leaves the others alone,
-- `vfs_close` gives it back.
use hrafn_os.Munin.Store.{inode_file}
use hrafn_os.Munin.File.{truncate}
use hrafn_os.Sched.Types.{FileDesc}
use hrafn_os.Vfs.{
  Vfs, o_trunc, no_desc, desc, set_desc, bad_fd, free_fd_from, open_inode, close_fd, place,
}
use hrafn_os.Prelude.{
  ℕ, zero, suc, ◌+◌, ◌≤◌, ◌<◌, ◌≡◌, ◌≢◌, refl, sym, ap, ◌∙◌, true, false, not, ◌&&◌, inl, inr,
  Option, none, some, bit_and, arith, leb, ltb, ◌||◌, ◌==◌, Bool-cases, length, length-set,
  get_or-set_self, get_or-set_ne, Bool, ◌⊎◌, ◌||◌, ltb,
}

-- The current task has its 16 descriptors.
abbrev pub HasFds : Vfs → Type 0
HasFds v = length (v.sched.tasks v.sched.current).fds ≡ 16

pub desc-set_desc_self :
    (fd : ℕ) (d : FileDesc) (v : Vfs) → HasFds v → fd < 16 → desc fd (set_desc fd d v) ≡ d
unfolding desc set_desc
desc-set_desc_self fd d v h l =
    let e : (v.sched.current == v.sched.current) ≡ true = ground arith in
    rw e (get_or-set_self (v.sched.tasks v.sched.current).fds fd d no_desc (omega arith))

pub desc-set_desc_ne :
    (fd fd' : ℕ) (d : FileDesc) (v : Vfs) → fd ≢ fd' → desc fd' (set_desc fd d v) ≡ desc fd' v
unfolding desc set_desc
desc-set_desc_ne fd fd' d v n =
    let e : (v.sched.current == v.sched.current) ≡ true = ground arith in
    rw e (get_or-set_ne (v.sched.tasks v.sched.current).fds fd fd' d no_desc n)

pub HasFds-set_desc : (fd : ℕ) (d : FileDesc) (v : Vfs) → HasFds v → HasFds (set_desc fd d v)
unfolding set_desc
HasFds-set_desc fd d v h =
    let e : (v.sched.current == v.sched.current) ≡ true = ground arith in
    rw e (length-set (v.sched.tasks v.sched.current).fds fd d ∙ h)

-- the lowest free descriptor, or none when all are in use
abbrev pub FreeFd : Vfs → Option ℕ → Type 0
FreeFd v none = (i : ℕ) → 3 ≤ i → i < 16 → (desc i v).used ≡ true
FreeFd v (some fd) =
    (3 ≤ fd)
    × (fd < 16)
    × ((desc fd v).used ≡ false)
    × ((i : ℕ) → 3 ≤ i → i < fd → (desc i v).used ≡ true)

free_fd_from-FreeFd :
    (n fd : ℕ) (v : Vfs)
    → n + fd ≡ 16
    → 3 ≤ fd
    → ((i : ℕ) → 3 ≤ i → i < fd → (desc i v).used ≡ true)
    → FreeFd v (free_fd_from n fd v)
unfolding free_fd_from
free_fd_from-FreeFd zero fd v e l low = λ i a b. low i a (omega arith)
free_fd_from-FreeFd (suc n) fd v e l low = elim (Bool-cases (desc fd v).used) [
  | inl u ↦ rw u (
      free_fd_from-FreeFd n (fd + 1) v (omega arith) (omega arith) (λ i a b.
        elim (Bool-cases (i == fd)) [
          | inl q ↦ let s : i ≡ fd = ground arith in rw s u
          | inr q ↦ low i a (ground arith)
        ]))
  | inr u ↦ rw u (l, omega arith, u, low)
]

-- What opening inode `ino` of type `ty` does to the descriptors of `v`.
abbrev pub Opened : ℕ → ℕ → Vfs → Option ℕ × Vfs → Type 0
Opened ino ty v (none, v') =
    ((i : ℕ) → 3 ≤ i → i < 16 → (desc i v).used ≡ true) × ((i : ℕ) → desc i v' ≡ desc i v)
Opened ino ty v (some fd, v') =
    FreeFd v (some fd)
    × ((desc fd v').used ≡ true)
    × ((desc fd v').inode ≡ ino)
    × ((desc fd v').kind ≡ ty)
    × ((i : ℕ) → i ≢ fd → desc i v' ≡ desc i v)

place-Opened : (ino ty start : ℕ) (v : Vfs) → HasFds v → Opened ino ty v (place ino ty start v)
unfolding place
place-Opened ino ty start v h =
    from (free_fd_from 13 3 v)
      (free_fd_from-FreeFd 13 3 v refl (omega arith) (λ i a b. absurd (omega arith)))
  where
    new : FileDesc
    new = record { used = true; inode = ino; kind = ty; offset = start }

    from :
        (o : Option ℕ)
        → FreeFd v o
        → Opened ino ty v (elim o [ none ↦ (none, v) | some fd ↦ (some fd, set_desc fd new v) ])
    from none full = (full, λ i. refl)
    from (some fd) (lo, hi, u, low) =
        let e = desc-set_desc_self fd new v h hi in
        (
          (lo, hi, u, low),
          ap (λ d. d.used) e,
          ap (λ d. d.inode) e,
          ap (λ d. d.kind) e,
          λ i n. desc-set_desc_ne fd i new v (λ q. n (sym q)),
        )

-- For a task with its 16 descriptors, opening an inode takes the lowest free descriptor from 3 up
-- and points it at the inode; every other descriptor is as it was. It fails exactly when the 13
-- descriptors are in use.
pub open_inode-Opened :
    (ino ty flags : ℕ) (v : Vfs) → HasFds v → Opened ino ty v (open_inode ino ty flags v)
unfolding open_inode desc
open_inode-Opened ino ty flags v h =
    elim (Bool-cases (not (bit_and flags o_trunc == 0) && (ty == inode_file))) [
      | inl e ↦ rw e (place-Opened ino ty _ (record v { fs = (truncate ino v.fs).1 }) h)
      | inr e ↦ rw e (place-Opened ino ty _ v h)
    ]

fs-set_desc : (fd : ℕ) (d : FileDesc) (v : Vfs) → (set_desc fd d v).fs ≡ v.fs
unfolding set_desc
fs-set_desc fd d v = refl

-- The call succeeds: there is a task, the descriptor is one of 3 to 15 and open, and it alone is
-- given up.
abbrev pub ClosedBy : ℕ → Vfs → Bool × Vfs → Type 0
ClosedBy fd v (ok, v') =
    (ok ≡ true)
    × (v.sched.current ≢ 0)
    × (3 ≤ fd)
    × (fd < 16)
    × ((desc fd v).used ≡ true)
    × (desc fd v' ≡ record (desc fd v) { used = false })
    × ((i : ℕ) → i ≢ fd → desc i v' ≡ desc i v)
    × (v'.fs ≡ v.fs)

-- The call fails and changes nothing: there is no task, or the descriptor is none of 3 to 15, or is
-- not open.
abbrev pub RefusedBy : ℕ → Vfs → Bool × Vfs → Type 0
RefusedBy fd v (ok, v') =
    (ok ≡ false)
    × (v' ≡ v)
    × ((v.sched.current ≡ 0) ⊎ (fd < 3) ⊎ (16 ≤ fd) ⊎ ((desc fd v).used ≡ false))

-- For a task with its 16 descriptors, `vfs_close` succeeds exactly when there is a current task and
-- the descriptor is one of 3 to 15 and open: then that descriptor is free, its other fields as they
-- were, and every other descriptor and the file system are left alone. In all other cases it fails and
-- changes nothing.
pub close_fd-cases :
    (fd : ℕ) (v : Vfs) → HasFds v → ClosedBy fd v (close_fd fd v) ⊎ RefusedBy fd v (close_fd fd v)
unfolding close_fd bad_fd
close_fd-cases fd v h = elim (Bool-cases ((v.sched.current == 0) || ltb fd 3 || leb 16 fd)) [
  | inl b ↦ inr (rw b (refl, refl, ground arith))
  | inr b ↦ elim (Bool-cases (desc fd v).used) [
    | inr u ↦ inr (rw (b, u) (refl, refl, inr (inr (inr refl))))
    | inl u ↦
        let l : fd < 16 = ground arith in
        let lo : 3 ≤ fd = ground arith in
        let c : v.sched.current ≢ 0 = ground arith in
        inl (
          rw (b, u)
            (
              refl,
              c,
              lo,
              l,
              refl,
              desc-set_desc_self fd _ v h l,
              (λ i n. desc-set_desc_ne fd i _ v (λ q. n (sym q))),
              fs-set_desc fd _ v,
            ))
  ]
]
