-- ===== src/Heap/Merge.antt =====
-- Coalescing and releasing on the block list of kernel/heap.cpp: what stays covered, what stays in use,
-- and that no two neighbours stay free.
use mathlib.Core.List.{Perm}
use mathlib.Core.List.Perm
use hrafn_os.Heap.Blocks.{
  Block, block, span, freed, merge_from, merge, in_use, Aligned, Owns, Owns-above,
}
use hrafn_os.Prelude.{
  ℕ, ◌+◌, ◌%◌, ◌≡◌, refl, ◌∙◌, true, false, ◌&&◌, inl, inr, List, [], ◌∷◌, arith, ◌==◌, Bool-cases,
}

pub span-merge_from : (b : Block) (bs : List Block) → span (merge_from b bs) ≡ span (b ∷ bs)
unfolding span merge_from
span-merge_from b [] = refl
span-merge_from b (c ∷ cs) =
    ground
      (arith, span-merge_from (record b { size = b.size + (24 + c.size) }) cs, span-merge_from c cs)

pub in_use-merge_from :
    (a : ℕ) (b : Block) (bs : List Block) → in_use a (merge_from b bs) ≡ in_use a (b ∷ bs)
unfolding in_use merge_from
in_use-merge_from a b [] = refl
in_use-merge_from a b (c ∷ cs) = elim (Bool-cases (b.free && c.free)) [
  | inl e ↦
      let bf : b.free ≡ true = ground arith in
      let cf : c.free ≡ true = ground arith in
      let pos : a + 24 + (b.size + (24 + c.size)) ≡ a + 24 + b.size + 24 + c.size = omega arith in
      rw (e, merge_from)
        (in_use-merge_from a (record b { size = b.size + (24 + c.size) }) cs
          ∙ rw (bf, cf, pos) refl)
  | inr e ↦ rw (e, merge_from) (ground (arith, in_use-merge_from (a + 24 + b.size) c cs))
]

-- Of two neighbours one is in use.
abbrev pub NoFreePair : List Block → Type 0
NoFreePair [] = Unit
NoFreePair (b ∷ []) = Unit
NoFreePair (b ∷ c ∷ cs) = ((b.free && c.free) ≡ false) × NoFreePair (c ∷ cs)

NoFreePair-behind :
    (p b : Block) (bs : List Block) → (p.free && b.free) ≡ false → NoFreePair (p ∷ merge_from b bs)
unfolding merge_from
NoFreePair-behind p b [] h = (h, tt)
NoFreePair-behind p b (c ∷ cs) h = elim (Bool-cases (b.free && c.free)) [
  | inl e ↦
      rw (e, merge_from) (NoFreePair-behind p (record b { size = b.size + (24 + c.size) }) cs h)
  | inr e ↦ rw (e, merge_from) (h, NoFreePair-behind b c cs e)
]

-- After coalescing no two neighbours are free.
pub merge-NoFreePair : (bs : List Block) → NoFreePair (merge bs)
unfolding merge
merge-NoFreePair [] = tt
merge-NoFreePair (b ∷ bs) =
    drop_front (merge_from b bs) (NoFreePair-behind (block 0 false) b bs refl)
  where
    drop_front : (cs : List Block) → NoFreePair (block 0 false ∷ cs) → NoFreePair cs
    drop_front [] h = tt
    drop_front (c ∷ cs) h = h.1

merge_from-Aligned :
    (b : Block) (bs : List Block) → b.size % 8 ≡ 0 → Aligned bs → Aligned (merge_from b bs)
unfolding merge_from
merge_from-Aligned b [] h hs = (h, tt)
merge_from-Aligned b (c ∷ cs) h hs = elim (Bool-cases (b.free && c.free)) [
  | inl e ↦
      rw (e, merge_from)
        (merge_from-Aligned (record b { size = b.size + (24 + c.size) }) cs
          (let q = hs.0 in omega arith) hs.1)
  | inr e ↦ rw (e, merge_from) (h, merge_from-Aligned c cs hs.0 hs.1)
]

pub merge-Aligned : (bs : List Block) → Aligned bs → Aligned (merge bs)
unfolding merge
merge-Aligned [] h = tt
merge-Aligned (b ∷ bs) h = merge_from-Aligned b bs h.0 h.1

pub span-merge : (bs : List Block) → span (merge bs) ≡ span bs
unfolding merge
span-merge [] = refl
span-merge (b ∷ bs) = span-merge_from b bs

pub in_use-merge : (a : ℕ) (bs : List Block) → in_use a (merge bs) ≡ in_use a bs
unfolding merge
in_use-merge a [] = refl
in_use-merge a (b ∷ bs) = in_use-merge_from a b bs

-- Releasing

pub span-freed : (p a : ℕ) (bs : List Block) → span (freed p a bs) ≡ span bs
unfolding span freed
span-freed p a [] = refl
span-freed p a (b ∷ bs) = ground (arith, span-freed p (a + 24 + b.size) bs)

pub freed-Aligned : (p a : ℕ) (bs : List Block) → Aligned bs → Aligned (freed p a bs)
unfolding freed
freed-Aligned p a [] h = tt
freed-Aligned p a (b ∷ bs) h = elim (Bool-cases (a + 24 == p)) [
  | inl e ↦ rw e h
  | inr e ↦ rw e (h.0, freed-Aligned p (a + 24 + b.size) bs h.1)
]

-- Releasing a payload in use takes that one, and no other, from those in use.
pub freed-Perm :
    (p n a : ℕ) (bs : List Block)
    → Owns p n a bs
    → Perm (in_use a bs) ((p, n) ∷ in_use a (freed p a bs))
unfolding in_use freed
freed-Perm p n a [] h = absurd h
freed-Perm p n a (b ∷ bs) (inl (e, s, f)) =
    let t : (a + 24 == p) ≡ true = ground arith in rw (t, f, ← e, ← s) (Perm.refl _)
freed-Perm p n a (b ∷ bs) (inr h) =
    let q = Owns-above p n (a + 24 + b.size) bs h in
    let t : (a + 24 == p) ≡ false = ground arith in
    elim (Bool-cases b.free) [
      | inl f ↦ rw (t, f) (freed-Perm p n (a + 24 + b.size) bs h)
      | inr f ↦
          rw (t, f)
            (Perm.trans (Perm.cons _ (freed-Perm p n (a + 24 + b.size) bs h)) (Perm.swap _ _ _))
    ]
