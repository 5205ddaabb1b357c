-- ===== src/Heap/Search.antt =====
-- The search of `kmalloc` in kernel/heap.cpp is first fit on the list of blocks.
use hrafn_os.Heap.{Heap, take_block, kmalloc_from}
use hrafn_os.Heap.Blocks.{Block, span, fits, first_fit}
use hrafn_os.Heap.Chain.{Chain, Leaves, take_block-Leaves}
use hrafn_os.Prelude.{
  ℕ, zero, suc, ◌+◌, ◌^◌, ◌<◌, ◌≡◌, refl, false, inl, inr, List, [], ◌∷◌, Option, none, some, arith,
  ◌==◌, Bool-cases, length,
}

-- The outcome of the search from pointer `p`, against first fit on the blocks from there on.
abbrev pub Searched : Heap → ℕ → ℕ → Option (ℕ × List Block) → Option (ℕ × Heap) → Type 0
Searched h p a none r = r ≡ some (0, h)
Searched h p a (some (q, cs)) r = (t : Heap) × (r ≡ some (q, t)) × Leaves h t p a cs

pub later-Searched :
    (h : Heap) (a : ℕ) (b : Block) (bs : List Block) (o : Option (ℕ × List Block))
    (r : Option (ℕ × Heap))
    → Chain h.hdr a a (b ∷ bs)
    → Searched h (h.hdr a).next (a + 24 + b.size) o r
    → Searched h a a (elim o [ none ↦ none | some (p, cs) ↦ some (p, b ∷ cs) ]) r
later-Searched h a b bs none r c s = s
later-Searched h a b bs (some (q, cs)) r c (t, e, l) = (
  t,
  e,
  record {
    chain = rw (l.below a (omega arith)) (refl, c.1, c.2, l.chain);
    below = λ x lx. l.below x (omega arith);
    same_head = l.same_head;
  },
)

pub kmalloc_from-Searched :
    (fuel n : ℕ) (h : Heap) (p a : ℕ) (bs : List Block)
    → length bs < fuel
    → 0 < a
    → a + span bs < 2 ^ 40
    → Chain h.hdr p a bs
    → Searched h p a (first_fit n a bs) (kmalloc_from fuel n p h)
unfolding kmalloc_from first_fit span
kmalloc_from-Searched zero n h p a bs f z s c = absurd (omega arith)
kmalloc_from-Searched (suc fuel) n h p a [] f z s c = rw c refl
kmalloc_from-Searched (suc fuel) n h p a (b ∷ bs) f z s c =
    let nz : (a == 0) ≡ false = ground arith in
    let c' : Chain h.hdr a a (b ∷ bs) = (refl, c.1, c.2, c.3) in
    rw (c.0, nz, c.2, c.1)
      (elim (Bool-cases (fits n b)) [
        | inl e ↦ rw e (take_block h a n, refl, take_block-Leaves h n a b bs e s c')
        | inr e ↦ rw e (
            later-Searched h a b bs _ _ c' (
              kmalloc_from-Searched fuel n h (h.hdr a).next (a + 24 + b.size) bs (omega arith)
                (omega arith) (omega arith) c.3))
      ])
