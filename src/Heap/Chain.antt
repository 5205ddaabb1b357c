-- ===== src/Heap/Chain.antt =====
-- The header list of kernel/heap.cpp in memory: from pointer `p` the headers lead through the given
-- blocks, each header right behind the payload before it, and end at the null pointer.
use hrafn_os.Words.{u64, sub64}
use hrafn_os.Heap.{Header, Heap, write, take_block, absorb, release, header_size}
use hrafn_os.Heap.Blocks.{Block, block, span, place, fits}
use hrafn_os.Prelude.{
  ℕ, ◌+◌, ◌-◌, ◌^◌, ◌≤◌, ◌<◌, ◌≡◌, refl, true, false, inl, inr, List, [], ◌∷◌, arith, leb, leb→le,
  Bool-cases,
}

abbrev pub Chain : (ℕ → Header) → ℕ → ℕ → List Block → Type 0
Chain m p a [] = p ≡ 0
Chain m p a (b ∷ bs) =
    (p ≡ a)
    × ((m a).size ≡ b.size)
    × ((m a).free ≡ b.free)
    × Chain m (m a).next (a + 24 + b.size) bs

-- Headers below the list do not matter.
pub Chain-frame :
    (m m' : ℕ → Header) (p a : ℕ) (bs : List Block)
    → ((x : ℕ) → a ≤ x → m' x ≡ m x)
    → Chain m p a bs
    → Chain m' p a bs
Chain-frame m m' p a [] same c = c
Chain-frame m m' p a (b ∷ bs) same c = rw (same a (omega arith)) (
  c.0,
  c.1,
  c.2,
  Chain-frame m m' (m a).next (a + 24 + b.size) bs (λ x l. same x (omega arith)) c.3,
)

pub Chain-write :
    (m : ℕ → Header) (p a x : ℕ) (v : Header) (bs : List Block)
    → x < a
    → Chain m p a bs
    → Chain (write m x v) p a bs
Chain-write m p a x v bs l c = Chain-frame m (write m x v) p a bs (λ y ly. ground arith) c

-- A header written in front of a list makes a longer list.
Chain-cons :
    (m : ℕ → Header) (a : ℕ) (v : Header) (b : Block) (bs : List Block)
    → v.size ≡ b.size
    → v.free ≡ b.free
    → Chain m v.next (a + 24 + b.size) bs
    → Chain (write m a v) a a (b ∷ bs)
Chain-cons m a v b bs s f c =
    let e : write m a v a ≡ v = ground arith in
    rw e (refl, s, f, Chain-write m v.next (a + 24 + b.size) a v bs (omega arith) c)

-- What an operation on the block at `a` has done: the list from there on, and nothing below.
pub record Leaves (h t : Heap) (p a : ℕ) (bs : List Block) : Type 0 where
  pub chain : Chain t.hdr p a bs
  pub below : (x : ℕ) → x < a → t.hdr x ≡ h.hdr x
  pub same_head : t.head ≡ h.head

-- Taking the block at `a` for `n` bytes: the list becomes that of `place`.
pub take_block-Leaves :
    (h : Heap) (n a : ℕ) (b : Block) (bs : List Block)
    → fits n b ≡ true
    → a + span (b ∷ bs) < 2 ^ 40
    → Chain h.hdr a a (b ∷ bs)
    → Leaves h (take_block h a n) a a (place n b bs)
unfolding take_block place span
take_block-Leaves h n a b bs f bound c =
    let e = c.1 in
    let le : n ≤ b.size = ground arith in
    let w : u64 (n + header_size + 16) ≡ n + 40 = omega arith in
    elim (Bool-cases (leb (n + 40) b.size)) [
      | inl l ↦
          let ll = leb→le _ _ l in
          let r : sub64 (sub64 b.size n) header_size ≡ b.size - n - 24 = omega arith in
          let at : a + 24 + b.size ≡ a + 24 + n + 24 + (b.size - n - 24) = omega arith in
          rw (w, e, l, r)
            (record {
              chain =
                  Chain-cons _ a _ (block n false) (block (b.size - n - 24) true ∷ bs) refl refl (
                    Chain-cons _ (a + 24 + n) _ (block (b.size - n - 24) true) bs refl refl
                      (rw at at c.3));
              below = λ x lx. ground arith;
              same_head = refl;
            })
      | inr l ↦
          rw (w, e, l)
            (record {
              chain = Chain-cons _ a _ (block b.size false) bs refl refl c.3;
              below = λ x lx. ground arith;
              same_head = refl;
            })
    ]

-- The block at `a` takes in the one behind it.
pub absorb-Leaves :
    (h : Heap) (a : ℕ) (b c : Block) (cs : List Block)
    → a + span (b ∷ c ∷ cs) < 2 ^ 40
    → Chain h.hdr a a (b ∷ c ∷ cs)
    → Leaves h (absorb h a) a a (record b { size = b.size + (24 + c.size) } ∷ cs)
unfolding absorb span
absorb-Leaves h a b c cs bound ch =
    let e1 = ch.1 in
    let next = ch.3.0 in
    let e2 = ch.3.1 in
    let sum : u64 (b.size + (24 + c.size)) ≡ b.size + (24 + c.size) = omega arith in
    let at : a + 24 + b.size + 24 + c.size ≡ a + 24 + (b.size + (24 + c.size)) = omega arith in
    record {
      chain =
          Chain-cons _ a _ (record b { size = b.size + (24 + c.size) }) cs (rw (next, e1, e2) sum)
            ch.2 (rw next (rw at at ch.3.3));
      below = λ x lx. ground arith;
      same_head = refl;
    }

-- Marking the block at `a` free.
pub release-Leaves :
    (h : Heap) (a : ℕ) (b : Block) (bs : List Block)
    → Chain h.hdr a a (b ∷ bs)
    → Leaves h (release h a) a a (block b.size true ∷ bs)
unfolding release
release-Leaves h a b bs c = record {
  chain = Chain-cons _ a _ (block b.size true) bs c.1 refl c.3;
  below = λ x lx. ground arith;
  same_head = refl;
}
