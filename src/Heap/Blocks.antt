-- ===== src/Heap/Blocks.antt =====
-- The arena of kernel/heap.cpp as a list of blocks in address order: what first fit, releasing and
-- coalescing do to that list, and to the payloads in use.
use mathlib.Core.List.{Perm}
use mathlib.Core.List.Perm
use hrafn_os.Prelude.{
  ℕ, ◌+◌, ◌-◌, ◌%◌, ◌≤◌, ◌≡◌, refl, Bool, true, false, ◌&&◌, inl, inr, ◌⊎◌, List, [], ◌∷◌, Option,
  none, some, arith, leb, ◌==◌, leb→le, Bool-cases, if◌then◌else◌,
}

pub record Block : Type 0 where
  pub size : ℕ
  pub free : Bool

abbrev pub block : ℕ → Bool → Block
block n f = record { size = n; free = f }

-- the bytes that the blocks and their headers take
unfoldable pub span : List Block → ℕ
span [] = 0
span (b ∷ bs) = 24 + b.size + span bs

-- Block `b` after a request for `n` bytes is placed in it: the rest becomes a free block if it can
-- hold a header and 16 bytes.
unfoldable pub place : ℕ → Block → List Block → List Block
place n b bs =
    if leb (n + 40) b.size
    then block n false ∷ block (b.size - n - 24) true ∷ bs
    else block b.size false ∷ bs

abbrev pub fits : ℕ → Block → Bool
fits n b = b.free && leb n b.size

-- First fit among the blocks from address `a` on: the payload's address, and the new list.
unfoldable pub first_fit : ℕ → ℕ → List Block → Option (ℕ × List Block)
first_fit n a [] = none
first_fit n a (b ∷ bs) =
    let rest = first_fit n (a + 24 + b.size) bs in
    if fits n b
    then some (a + 24, place n b bs)
    else elim rest [ none ↦ none | some (p, cs) ↦ some (p, b ∷ cs) ]

-- The block whose payload starts at `p` is marked free.
unfoldable pub freed : ℕ → ℕ → List Block → List Block
freed p a [] = []
freed p a (b ∷ bs) =
    let rest = freed p (a + 24 + b.size) bs in
    if a + 24 == p then block b.size true ∷ bs else b ∷ rest

-- Runs of free blocks become one, the headers between them included.
unfoldable pub merge_from : Block → List Block → List Block
merge_from b [] = b ∷ []
merge_from b (c ∷ cs) = elim (b.free && c.free) [
  | true ↦ merge_from (record b { size = b.size + (24 + c.size) }) cs
  | false ↦ b ∷ merge_from c cs
]

unfoldable pub merge : List Block → List Block
merge [] = []
merge (b ∷ bs) = merge_from b bs

-- The payloads in use: address and size.
unfoldable pub in_use : ℕ → List Block → List (ℕ × ℕ)
in_use a [] = []
in_use a (b ∷ bs) =
    let rest = in_use (a + 24 + b.size) bs in if b.free then rest else (a + 24, b.size) ∷ rest

-- Every block's size is a multiple of 8.
abbrev pub Aligned : List Block → Type 0
Aligned [] = Unit
Aligned (b ∷ bs) = (b.size % 8 ≡ 0) × Aligned bs

-- No block can take `n` bytes.
abbrev pub NoFit : ℕ → List Block → Type 0
NoFit n [] = Unit
NoFit n (b ∷ bs) = (fits n b ≡ false) × NoFit n bs

-- `p` is the address of the payload of a block in use, of `n` bytes.
abbrev pub Owns : ℕ → ℕ → ℕ → List Block → Type 0
Owns p n a [] = ⊥
Owns p n a (b ∷ bs) =
    ((a + 24 ≡ p) × (b.size ≡ n) × (b.free ≡ false)) ⊎ Owns p n (a + 24 + b.size) bs

pub Owns-above : (p n a : ℕ) (bs : List Block) → Owns p n a bs → a + 24 ≤ p
Owns-above p n a [] h = absurd h
Owns-above p n a (b ∷ bs) (inl h) = let e = h.0 in omega arith
Owns-above p n a (b ∷ bs) (inr h) = let q = Owns-above p n (a + 24 + b.size) bs h in omega arith

-- The blocks `cs` are `bs` with one more payload in use, at `p`, of at least `n` bytes.
pub record Placed (n a : ℕ) (bs : List Block) (p : ℕ) (cs : List Block) : Type 0 where
  pub size : ℕ
  pub enough : n ≤ size
  pub same_span : span cs ≡ span bs
  pub uses : Perm (in_use a cs) ((p, size) ∷ in_use a bs)
  pub above : a + 24 ≤ p
  pub within : p + size ≤ a + span bs
  pub owned : Owns p size a cs
  pub aligned : a % 8 ≡ 0 → Aligned bs → n % 8 ≡ 0 → (p % 8 ≡ 0) × Aligned cs

abbrev pub FitSpec : ℕ → ℕ → List Block → Option (ℕ × List Block) → Type 0
FitSpec n a bs none = NoFit n bs
FitSpec n a bs (some (p, cs)) = Placed n a bs p cs

here-Placed :
    (n a : ℕ) (b : Block) (bs : List Block)
    → fits n b ≡ true
    → Placed n a (b ∷ bs) (a + 24) (place n b bs)
unfolding place span in_use
here-Placed n a b bs e = elim (Bool-cases (leb (n + 40) b.size)) [
  | inl l ↦
      let le = leb→le _ _ l in
      let isf : b.free ≡ true = ground arith in
      let pos : a + 24 + n + 24 + (b.size - n - 24) ≡ a + 24 + b.size = omega arith in
      rw (l, isf)
        (record {
          size = n;
          enough = omega arith;
          same_span = omega arith;
          uses = rw pos (Perm.refl _);
          above = omega arith;
          within = omega arith;
          owned = inl (refl, refl, refl);
          aligned = λ ha al hn. ground (arith, al.0);
        })
  | inr l ↦
      let isf : b.free ≡ true = ground arith in
      let le : n ≤ b.size = ground arith in
      rw (l, isf)
        (record {
          size = b.size;
          enough = le;
          same_span = refl;
          uses = Perm.refl _;
          above = omega arith;
          within = omega arith;
          owned = inl (refl, refl, refl);
          aligned = λ ha al hn. (omega arith, (al.0, al.1));
        })
]

later-FitSpec :
    (n a : ℕ) (b : Block) (bs : List Block) (o : Option (ℕ × List Block))
    → fits n b ≡ false
    → FitSpec n (a + 24 + b.size) bs o
    → FitSpec n a (b ∷ bs) (elim o [ none ↦ none | some (p, cs) ↦ some (p, b ∷ cs) ])
unfolding span in_use
later-FitSpec n a b bs none e h = (e, h)
later-FitSpec n a b bs (some (p, cs)) e h = record {
  size = h.size;
  enough = h.enough;
  same_span = let q = h.same_span in omega arith;
  uses = elim (Bool-cases b.free) [
    | inl f ↦ rw f h.uses
    | inr f ↦ rw f (Perm.trans (Perm.cons _ h.uses) (Perm.swap _ _ _))
  ];
  above = let q = h.above in omega arith;
  within = let q = h.within in omega arith;
  owned = inr h.owned;
  aligned =
      λ ha al hn. let r = h.aligned (let a8 = al.0 in omega arith) al.1 hn in (r.0, (al.0, r.1));
}

-- First fit finds a place whenever some free block is large enough.  It then adds one payload of at
-- least the requested size to those in use, inside the blocks, and keeps the others where they are.
pub first_fit-FitSpec : (n a : ℕ) (bs : List Block) → FitSpec n a bs (first_fit n a bs)
unfolding first_fit
first_fit-FitSpec n a [] = tt
first_fit-FitSpec n a (b ∷ bs) = elim (Bool-cases (fits n b)) [
  | inl e ↦ rw e (here-Placed n a b bs e)
  | inr e ↦ rw e (later-FitSpec n a b bs _ e (first_fit-FitSpec n (a + 24 + b.size) bs))
]
