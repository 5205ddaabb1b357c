-- ===== src/Munin/Store/Alloc.antt =====
-- The block and inode allocators of kernel/munin.cpp hand out the lowest free block and the lowest free
-- inode, and nothing when there is none.
use hrafn_os.Bitmap.{bitmap_test, bitmap_set}
use hrafn_os.Bitmap.Laws.{IsBytes}
use hrafn_os.Munin.Store.{
  Fs, inode_free, alloc_block_from, alloc_block, alloc_inode_from, alloc_inode, fresh_inode,
  set_inode,
}
use hrafn_os.Prelude.{
  ℕ, zero, suc, ◌+◌, ◌<◌, ◌≡◌, ◌≢◌, refl, Bool, true, false, inl, inr, Option, none, some, arith,
  ◌==◌, ==_iff, Bool-cases, length,
}

-- The block bitmap is an array of 64 bytes.
pub record HasBits (fs : Fs) : Type 0 where
  pub bytes : IsBytes fs.used
  pub room : length fs.used ≡ 64

abbrev pub taken : Fs → ℕ → Bool
taken fs i = bitmap_test fs.used i

-- every block of the region is used
abbrev pub Full : Fs → Type 0
Full fs = (i : ℕ) → i < 512 → taken fs i ≡ true

-- The lowest free block is marked used, and nothing else changes; or there is none.
abbrev pub BlockOutcome : Fs → Option ℕ × Fs → Type 0
BlockOutcome fs (none, fs') = (fs' ≡ fs) × Full fs
BlockOutcome fs (some i, fs') =
    (i < 512)
    × (taken fs i ≡ false)
    × ((j : ℕ) → j < i → taken fs j ≡ true)
    × (fs' ≡ record fs { used = bitmap_set fs.used i })

alloc_block_from-BlockOutcome :
    (n i : ℕ) (fs : Fs)
    → n + i ≡ 512
    → ((j : ℕ) → j < i → taken fs j ≡ true)
    → BlockOutcome fs (alloc_block_from n i fs)
unfolding alloc_block_from
alloc_block_from-BlockOutcome zero i fs e low = (refl, λ j l. low j (omega arith))
alloc_block_from-BlockOutcome (suc n) i fs e low = elim (Bool-cases (taken fs i)) [
  | inl u ↦ rw u (
      alloc_block_from-BlockOutcome n (i + 1) fs (omega arith) (λ j l. elim (Bool-cases (i == j)) [
        | inl q ↦ let ij : i ≡ j = ground arith in rw (← ij) u
        | inr q ↦ low j (ground arith)
      ]))
  | inr u ↦ rw u (omega arith, u, low, refl)
]

-- `alloc_block` hands out the lowest free block and marks it; it fails, changing nothing, exactly when
-- all 512 blocks are used.
pub alloc_block-BlockOutcome : (fs : Fs) → BlockOutcome fs (alloc_block fs)
unfolding alloc_block
alloc_block-BlockOutcome fs = alloc_block_from-BlockOutcome 512 0 fs refl (λ j l. elim l [ ])

-- The lowest free inode is of type `kind` from now on, with size 0 and no block, which is
-- 0xFFFFFFFF, in its 8 direct entries and its indirect one; nothing else changes. Or there is none.
abbrev pub InodeOutcome : ℕ → Fs → Option ℕ × Fs → Type 0
InodeOutcome kind fs (none, fs') =
    (fs' ≡ fs) × ((i : ℕ) → i < 128 → (fs.inodes i).kind ≢ inode_free)
InodeOutcome kind fs (some i, fs') =
    (i < 128)
    × ((fs.inodes i).kind ≡ inode_free)
    × ((j : ℕ) → j < i → (fs.inodes j).kind ≢ inode_free)
    × ((fs'.inodes i).kind ≡ kind)
    × ((fs'.inodes i).size ≡ 0)
    × ((b : ℕ) → b < 8 → (fs'.inodes i).blocks b ≡ 0xFFFFFFFF)
    × ((fs'.inodes i).indirect ≡ 0xFFFFFFFF)
    × ((j : ℕ) → j ≢ i → fs'.inodes j ≡ fs.inodes j)
    × (fs'.bytes ≡ fs.bytes)
    × (fs'.used ≡ fs.used)

-- the fields of a new inode
record Fresh (fs fs' : Fs) (i kind : ℕ) : Type 0 where
  typed : (fs'.inodes i).kind ≡ kind
  empty : (fs'.inodes i).size ≡ 0
  direct : (b : ℕ) → b < 8 → (fs'.inodes i).blocks b ≡ 0xFFFFFFFF
  indirect : (fs'.inodes i).indirect ≡ 0xFFFFFFFF
  others : (j : ℕ) → j ≢ i → fs'.inodes j ≡ fs.inodes j
  bytes : fs'.bytes ≡ fs.bytes
  used : fs'.used ≡ fs.used

set_inode-Fresh : (fs : Fs) (i kind : ℕ) → Fresh fs (set_inode fs i (fresh_inode kind)) i kind
set_inode-Fresh fs i kind = record {
  typed = ground arith;
  empty = ground arith;
  direct = λ b l. ground arith;
  indirect = ground arith;
  others = λ j n. ground arith;
  bytes = refl;
  used = refl;
}

alloc_inode_from-InodeOutcome :
    (n i kind : ℕ) (fs : Fs)
    → n + i ≡ 128
    → ((j : ℕ) → j < i → (fs.inodes j).kind ≢ inode_free)
    → InodeOutcome kind fs (alloc_inode_from n i kind fs)
unfolding alloc_inode_from
alloc_inode_from-InodeOutcome zero i kind fs e low = (refl, λ j l. low j (omega arith))
alloc_inode_from-InodeOutcome (suc n) i kind fs e low =
    elim (Bool-cases ((fs.inodes i).kind == inode_free)) [
      | inl u ↦ rw u (
          let n = set_inode-Fresh fs i kind in
          (
            omega arith,
            (==_iff _ _).0 u,
            low,
            n.typed,
            n.empty,
            n.direct,
            n.indirect,
            n.others,
            n.bytes,
            n.used,
          ))
      | inr u ↦ rw u (
          alloc_inode_from-InodeOutcome n (i + 1) kind fs (omega arith) (λ j l.
            elim (Bool-cases (i == j)) [
              | inl q ↦
                  let ij : i ≡ j = ground arith in
                  rw (← ij) (λ z. let t = (==_iff (fs.inodes i).kind inode_free).1 z in cc)
              | inr q ↦ low j (ground arith)
            ]))
    ]

-- `alloc_inode` hands out the lowest free inode, with the type asked for, size 0 and no block in any of
-- its 8 direct entries or its indirect one, and changes nothing else; it fails, changing nothing,
-- exactly when all 128 inodes are in use.
pub alloc_inode-InodeOutcome : (kind : ℕ) (fs : Fs) → InodeOutcome kind fs (alloc_inode kind fs)
unfolding alloc_inode
alloc_inode-InodeOutcome kind fs =
    alloc_inode_from-InodeOutcome 128 0 kind fs refl (λ j l. elim l [ ])
