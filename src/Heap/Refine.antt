-- ===== src/Heap/Refine.antt =====
-- kernel/heap.cpp refines its block list: `kmalloc` is first fit on the list, `kfree` releases and
-- coalesces it, and both keep the arena tiled by blocks.
use mathlib.Core.List.{Perm}
use mathlib.Core.Path.{subst}
use hrafn_os.Heap.{
  Heap, heap_base, heap_size, init, kmalloc, round_up, coalesce_from, coalesce, release, kfree,
  header_size,
}
use hrafn_os.Heap.Blocks.{
  Block, block, span, freed, first_fit, FitSpec, first_fit-FitSpec, Placed, Aligned, merge_from,
  merge, in_use, NoFit, Owns, Owns-above,
}
use hrafn_os.Heap.Merge.{
  NoFreePair, merge-NoFreePair, merge-Aligned, span-merge, in_use-merge, freed-Perm, span-freed,
  freed-Aligned,
}
use hrafn_os.Heap.Chain.{Chain, Leaves, release-Leaves}
use hrafn_os.Prelude.{
  ℕ, ◌+◌, ◌-◌, ◌%◌, ◌^◌, ◌≤◌, ◌<◌, ◌≡◌, ◌≢◌, refl, sym, ap, ◌∙◌, true, false, inl, inr, ◌⊎◌, List,
  [], ◌∷◌, Option, none, some, arith, ◌==◌, length,
}
use hrafn_os.Heap.Search.{Searched, kmalloc_from-Searched}
use hrafn_os.Heap.Coalesce.{coalesce_from-Coalesced}

-- The heap's list is made of the blocks `bs`, which fill the arena.
pub record Holds (h : Heap) (bs : List Block) : Type 0 where
  pub chain : Chain h.hdr h.head heap_base bs
  pub full : span bs ≡ heap_size
  pub aligned : Aligned bs

-- Releasing the block whose payload is `p` somewhere in the list.
release-Chain :
    (h : Heap) (q n a : ℕ) (bs : List Block) (p : ℕ)
    → Owns q n a bs
    → Chain h.hdr p a bs
    → Leaves h (release h (q - header_size)) p a (freed q a bs)
unfolding freed
release-Chain h q n a [] p o c = absurd o
release-Chain h q n a (b ∷ bs) p (inl (e, _, _)) c =
    let t : (a + 24 == q) ≡ true = ground arith in
    let w : q - header_size ≡ a = omega arith in
    rw (w, t, c.0) (release-Leaves h a b bs (refl, c.1, c.2, c.3))
release-Chain h q n a (b ∷ bs) p (inr o) c =
    let above = Owns-above q n (a + 24 + b.size) bs o in
    let t : (a + 24 == q) ≡ false = ground arith in
    let l = release-Chain h q n (a + 24 + b.size) bs (h.hdr a).next o c.3 in
    rw t (record {
      chain = rw (l.below a (omega arith)) (c.0, c.1, c.2, l.chain);
      below = λ x lx. l.below x (omega arith);
      same_head = l.same_head;
    })

-- The freshly initialised heap is one free block that fills the arena.
pub init-Holds : (h : Heap) → Holds (init h) (block (heap_size - header_size) true ∷ [])
unfolding init span
init-Holds h = record { chain = (refl, refl, refl, refl); full = refl; aligned = (refl, tt) }

-- A successful `kmalloc`.
pub record Granted (size : ℕ) (bs : List Block) (p : ℕ) (t : Heap) : Type 0 where
  pub blocks : List Block
  pub holds : Holds t blocks
  pub placed : Placed (round_up size) heap_base bs p blocks
  pub enough : size ≤ placed.size
  pub aligned8 : p % 8 ≡ 0

round_up_bounds :
    (n : ℕ) → n < 2 ^ 63 → (n ≤ round_up n) × (round_up n % 8 ≡ 0) × (round_up n < 2 ^ 64)
unfolding round_up
round_up_bounds n h = omega arith

granted :
    (h : Heap) (bs : List Block) (size : ℕ)
    → Holds h bs
    → size < 2 ^ 63
    → (o : Option (ℕ × List Block)) → FitSpec (round_up size) heap_base bs o
    → (r : Option (ℕ × Heap)) → Searched h h.head heap_base o r
    → ((r ≡ some (0, h)) × NoFit (round_up size) bs)
      ⊎ ((p : ℕ) × (t : Heap) × (r ≡ some (p, t)) × Granted size bs p t)
granted h bs size v l none f r s = inl (s, f)
granted h bs size v l (some (p, cs)) f r (t, e, lv) =
    let up = round_up_bounds size l in
    let al = f.aligned (refl) v.aligned up.1 in
    inr (
      p,
      t,
      e,
      record {
        blocks = cs;
        holds = record {
          chain = rw lv.same_head lv.chain;
          full = f.same_span ∙ v.full;
          aligned = al.1;
        };
        placed = f;
        enough = let q = f.enough in omega (arith, up.0);
        aligned8 = al.0;
      },
    )

-- `kmalloc` of a size that is not 0 and is below 2^63, on a heap that holds the blocks `bs`, given
-- one round of fuel for each block and one more: it returns null and changes nothing, and then no
-- free block can take the rounded request; or it returns an 8-byte aligned payload inside the arena
-- of at least the requested size, the payloads in use are the old ones and that one, and the blocks
-- tile the arena again.
pub kmalloc-Granted :
    (fuel size : ℕ) (h : Heap) (bs : List Block)
    → Holds h bs
    → size ≢ 0
    → size < 2 ^ 63
    → length bs < fuel
    → ((kmalloc fuel size h ≡ some (0, h)) × NoFit (round_up size) bs)
      ⊎ ((p : ℕ) × (t : Heap) × (kmalloc fuel size h ≡ some (p, t)) × Granted size bs p t)
unfolding kmalloc
kmalloc-Granted fuel size h bs v nz l f =
    let t : (size == 0) ≡ false = ground arith in
    let full = v.full in
    rw t (
      granted h bs size v l (first_fit (round_up size) heap_base bs)
        (first_fit-FitSpec (round_up size) heap_base bs) _
        (kmalloc_from-Searched fuel (round_up size) h h.head heap_base bs f (omega arith)
          (omega arith) v.chain))

length-freed : (p a : ℕ) (bs : List Block) → length (freed p a bs) ≡ length bs
unfolding freed
length-freed p a [] = refl
length-freed p a (b ∷ bs) = ground (arith, length-freed p (a + 24 + b.size) bs)

coalesce-merge :
    (fuel : ℕ) (h : Heap) (bs : List Block)
    → length bs < fuel
    → Holds h bs
    → (t : Heap) × (coalesce fuel h ≡ some t) × Holds t (merge bs)
unfolding coalesce merge span
coalesce-merge fuel h [] f v = absurd (let q = v.full in omega arith)
coalesce-merge fuel h (b ∷ bs) f v =
    let c = v.chain in
    let full = v.full in
    let at = c.0 in
    let (t, e, l) =
      coalesce_from-Coalesced fuel h heap_base b bs (omega arith) (omega arith) (omega arith)
        (refl, c.1, c.2, c.3) in
    (
      t,
      ap (λ x. coalesce_from fuel x h) at ∙ e,
      record {
        chain =
            subst (λ x. Chain t.hdr x heap_base (merge_from b bs)) (sym (l.same_head ∙ at)) l.chain;
        full = span-merge (b ∷ bs) ∙ full;
        aligned = merge-Aligned (b ∷ bs) v.aligned;
      },
    )

-- `kfree` of a payload `p` in use, on a heap that holds the blocks `bs`, given one round of fuel
-- for each block and one more: it ends, takes exactly that payload from those in use, leaves no two
-- neighbouring free blocks, and the blocks tile the arena again.
pub kfree-Holds :
    (fuel p n : ℕ) (h : Heap) (bs : List Block)
    → Holds h bs
    → Owns p n heap_base bs
    → length bs < fuel
    → (t : Heap) × (cs : List Block) × (kfree fuel p h ≡ some t)
      × Holds t cs
      × NoFreePair cs
      × Perm (in_use heap_base bs) ((p, n) ∷ in_use heap_base cs)
unfolding kfree
kfree-Holds fuel p n h bs v o f =
    let above = Owns-above p n heap_base bs o in
    let nz : (p == 0) ≡ false = ground arith in
    let l = release-Chain h p n heap_base bs h.head o v.chain in
    let h1 : Holds (release h (p - header_size)) (freed p heap_base bs) = record {
      chain = rw l.same_head l.chain;
      full = span-freed p heap_base bs ∙ v.full;
      aligned = freed-Aligned p heap_base bs v.aligned;
    } in
    let (t, e, ht) =
      coalesce-merge fuel (release h (p - header_size)) (freed p heap_base bs)
        (omega (arith, length-freed p heap_base bs)) h1 in
    (
      t,
      merge (freed p heap_base bs),
      rw nz e,
      ht,
      merge-NoFreePair (freed p heap_base bs),
      rw (in_use-merge heap_base (freed p heap_base bs)) (freed-Perm p n heap_base bs o),
    )
