-- ===== src/Heap/Coalesce.antt =====
-- The loop of `coalesce` in kernel/heap.cpp merges neighbouring free blocks of the list.
use hrafn_os.Heap.{Heap, absorb, coalesce_from}
use hrafn_os.Heap.Blocks.{Block, span, merge_from}
use hrafn_os.Heap.Chain.{Chain, Leaves, absorb-Leaves}
use hrafn_os.Prelude.{
  ℕ, zero, suc, ◌+◌, ◌^◌, ◌<◌, ◌≡◌, refl, ◌∙◌, true, false, ◌&&◌, inl, inr, List, [], ◌∷◌, some,
  arith, ◌==◌, Bool-cases, length,
}

-- The loop at `b` ends, and leaves the blocks `bs` from `a` on.
abbrev pub Coalesced : ℕ → ℕ → Heap → List Block → Type 0
Coalesced fuel a h bs = (t : Heap) × (coalesce_from fuel a h ≡ some t) × Leaves h t a a bs

module _ (fuel : ℕ) (h : Heap) (a : ℕ) (b d : Block) (ds : List Block) (z : 0 < a)
    (s : a + span (b ∷ d ∷ ds) < 2 ^ 40) (c : Chain h.hdr a a (b ∷ d ∷ ds)) where
  absorb_step :
      (b.free && d.free) ≡ true
      → Coalesced fuel a (absorb h a) (merge_from (record b { size = b.size + (24 + d.size) }) ds)
      → Coalesced (suc fuel) a h (merge_from b (d ∷ ds))
  unfolding coalesce_from merge_from
  absorb_step e (t, r, m) =
      let l = absorb-Leaves h a b d ds s c in
      let nz : (a == 0) ≡ false = ground arith in
      let nz' : (a + 24 + b.size == 0) ≡ false = ground arith in
      (
        t,
        rw (nz, c.3.0, nz', c.2, c.3.2, e) r,
        rw (e, merge_from)
            (record {
              chain = m.chain;
              below = λ x lx. m.below x lx ∙ l.below x lx;
              same_head = m.same_head ∙ l.same_head;
            }),
      )

  onward_step :
      (b.free && d.free) ≡ false
      → Coalesced fuel (a + 24 + b.size) h (merge_from d ds)
      → Coalesced (suc fuel) a h (merge_from b (d ∷ ds))
  unfolding coalesce_from merge_from
  onward_step e (t, r, m) =
      let nz : (a == 0) ≡ false = ground arith in
      let nz' : (a + 24 + b.size == 0) ≡ false = ground arith in
      (
        t,
        rw (nz, c.3.0, nz', c.2, c.3.2, e) r,
        rw (e, merge_from)
            (record {
              chain = rw (m.below a (omega arith)) (refl, c.1, c.2, rw c.3.0 m.chain);
              below = λ x lx. m.below x (omega arith);
              same_head = m.same_head;
            }),
      )

pub coalesce_last :
    (fuel : ℕ) (h : Heap) (a : ℕ) (b : Block)
    → 0 < a
    → Chain h.hdr a a (b ∷ [])
    → Coalesced (suc fuel) a h (merge_from b [])
unfolding coalesce_from merge_from
coalesce_last fuel h a b z c =
    let nz : (a == 0) ≡ false = ground arith in
    (h, rw (nz, c.3) refl, record { chain = c; below = λ x l. refl; same_head = refl })

pub coalesce_from-Coalesced :
    (fuel : ℕ) (h : Heap) (a : ℕ) (b : Block) (bs : List Block)
    → length bs < fuel
    → 0 < a
    → a + span (b ∷ bs) < 2 ^ 40
    → Chain h.hdr a a (b ∷ bs)
    → Coalesced fuel a h (merge_from b bs)
unfolding span
coalesce_from-Coalesced zero h a b bs f z s c = absurd (omega arith)
coalesce_from-Coalesced (suc fuel) h a b [] f z s c = coalesce_last fuel h a b z c
coalesce_from-Coalesced (suc fuel) h a b (d ∷ ds) f z s c = elim (Bool-cases (b.free && d.free)) [
  | inl e ↦ absorb_step fuel h a b d ds z s c e (
      coalesce_from-Coalesced fuel (absorb h a) a (record b { size = b.size + (24 + d.size) }) ds
        (omega arith) z (omega arith) (absorb-Leaves h a b d ds s c).chain)
  | inr e ↦ onward_step fuel h a b d ds z s c e (
      coalesce_from-Coalesced fuel h (a + 24 + b.size) d ds (omega arith) (omega arith)
        (omega arith) (refl, c.3.1, c.3.2, c.3.3))
]
