-- ===== src/Vmm/Free.antt =====
-- `vmm_destroy_address_space` of kernel/vmm.cpp: which frames the four nested loops give back.
use hrafn_os.Pmm.{Pmm, Memory, free_frame}
use hrafn_os.Pmm.Marks.{used}
use hrafn_os.Pmm.Marks
use hrafn_os.Pmm.Frames.{free_frame-IsValid, used-free_frame}
use hrafn_os.Vmm.{
  Vmm, entry, address, is_present, is_huge, free_at, free_pt_from, free_pd_from, free_pdpt_from,
  free_root_from, free_pt, free_pd, free_pdpt, destroy_address_space,
}
use hrafn_os.Prelude.{
  ℕ, zero, suc, ◌+◌, ◌/◌, ◌≡◌, ◌≢◌, refl, ◌∙◌, Bool, false, not, ◌&&◌, ◌||◌, inl, inr, arith, ltb,
  ◌==◌, Bool-cases, if◌then◌else◌,
}

-- Whether one of the entries `i, i + 1, …` of a table, `n` of them, satisfies `p`.
pub any_entry : Memory → ℕ → (ℕ → Bool) → ℕ → ℕ → Bool
any_entry m t p zero i = false
any_entry m t p (suc n) i = p (entry m t i) || any_entry m t p n (i + 1)

-- Frame `g` is a page of the table of pages at `t`.
pub in_pt : Memory → ℕ → ℕ → Bool
in_pt m g t = any_entry m t (λ e. is_present e && (e / 4096 == g)) 512 0

-- An entry leads to the frame itself or to a table of which `below` says the same; no huge page.
pub in_table : (ℕ → Bool) → ℕ → ℕ → Bool
in_table below g e = (is_present e && not (is_huge e)) && ((e / 4096 == g) || below (address e))

pub in_pd : Memory → ℕ → ℕ → Bool
in_pd m g t = any_entry m t (in_table (in_pt m g) g) 512 0

pub in_pdpt : Memory → ℕ → ℕ → Bool
in_pdpt m g t = any_entry m t (in_table (in_pd m g) g) 512 0

-- Frame `g` is the root, or a table or page of the user part below it.
pub in_space : Memory → ℕ → ℕ → Bool
in_space m root g =
    (root / 4096 == g)
    || any_entry m root (λ e. is_present e && ((e / 4096 == g) || in_pdpt m g (address e))) 511 1

-- Exactly the managed frames of `b` are given back.
pub record Freed (s t : Vmm) (b : ℕ → Bool) : Type 0 where
  pub mem : t.mem ≡ s.mem
  pub valid : Marks.IsValid t.pmm
  pub total : t.pmm.total_frames ≡ s.pmm.total_frames
  pub kernel : t.kernel_pml4 ≡ s.kernel_pml4
  pub bits : (g : ℕ) → used t.pmm g ≡ (not (b g && ltb g s.pmm.total_frames) && used s.pmm g)

Freed-none : (s : Vmm) → Marks.IsValid s.pmm → Freed s s (λ g. false)
Freed-none s v = record { mem = refl; valid = v; total = refl; kernel = refl; bits = λ g. refl }

Freed-trans :
    (s t v : Vmm) (a b c : ℕ → Bool)
    → Freed s t a
    → Freed t v b
    → ((g : ℕ) → c g ≡ (a g || b g))
    → Freed s v c
Freed-trans s t v a b c p q h = record {
  mem = q.mem ∙ p.mem;
  valid = q.valid;
  total = q.total ∙ p.total;
  kernel = q.kernel ∙ p.kernel;
  bits = λ g. ground (arith, q.bits g, p.bits g, h g, q.total, p.total);
}

free_frame-total : (s : Pmm) (p : ℕ) → (free_frame s p).total_frames ≡ s.total_frames
unfolding free_frame
free_frame-total s p = ground arith

Freed-same : (s t : Vmm) (b c : ℕ → Bool) → Freed s t b → ((g : ℕ) → c g ≡ b g) → Freed s t c
Freed-same s t b c p h = record {
  mem = p.mem;
  valid = p.valid;
  total = p.total;
  kernel = p.kernel;
  bits = λ g. rw (h g) (p.bits g);
}

Freed-at : (s : Vmm) (p : ℕ) → Marks.IsValid s.pmm → Freed s (free_at p s) (λ g. p / 4096 == g)
Freed-at s p v = record {
  mem = refl;
  valid = free_frame-IsValid s.pmm p v;
  total = free_frame-total s.pmm p;
  kernel = refl;
  bits = λ g. used-free_frame s.pmm p v g;
}

-- A loop over the entries of a table gives back what its body does: `p` says it of one entry.
module _ (loop : ℕ → ℕ → ℕ → Vmm → Vmm) (body : ℕ → Vmm → Vmm) (p : Memory → ℕ → ℕ → Bool)
    (stop : (i t : ℕ) (s : Vmm) → loop 0 i t s ≡ s)
    (next : (n i t : ℕ) (s : Vmm)
      → loop (suc n) i t s ≡ loop n (i + 1) t (body (entry s.mem t i) s))
    (one : (e : ℕ) (s : Vmm) → Marks.IsValid s.pmm → Freed s (body e s) (λ g. p s.mem g e)) where
  loop-Freed :
      (n i t : ℕ) (s : Vmm)
      → Marks.IsValid s.pmm
      → Freed s (loop n i t s) (λ g. any_entry s.mem t (p s.mem g) n i)
  unfolding any_entry
  loop-Freed zero i t s v = rw (stop i t s) (Freed-none s v)
  loop-Freed (suc n) i t s v =
      let a = one (entry s.mem t i) s v in
      let b = loop-Freed n (i + 1) t (body (entry s.mem t i) s) a.valid in
      rw (next n i t s) (Freed-trans s _ _ _ _ _ a b (λ g. rw a.mem refl))

-- Giving back a table after what `inner` gives back below it.
below_table :
    (inner : ℕ → Vmm → Vmm) (below : Memory → ℕ → ℕ → Bool)
    → ((t : ℕ) (s : Vmm) → Marks.IsValid s.pmm → Freed s (inner t s) (λ g. below s.mem g t))
    → (e : ℕ) (s : Vmm) → Marks.IsValid s.pmm
    → Freed s
        (free_at (address e) (inner (address e) s))
        (λ g. (e / 4096 == g) || below s.mem g (address e))
below_table inner below h e s v =
    let a = h (address e) s v in
    let q : address e / 4096 ≡ e / 4096 = omega arith in
    Freed-trans s _ _ _ _ _ a (Freed-at (inner (address e) s) (address e) a.valid)
      (λ g. rw q (ground arith))

guarded :
    (inner : ℕ → Vmm → Vmm) (below : Memory → ℕ → ℕ → Bool)
    → ((t : ℕ) (s : Vmm) → Marks.IsValid s.pmm → Freed s (inner t s) (λ g. below s.mem g t))
    → (e : ℕ) (s : Vmm) → Marks.IsValid s.pmm
    → Freed s
        (if not (is_present e) || is_huge e then s else free_at (address e) (inner (address e) s))
        (λ g. in_table (below s.mem g) g e)
unfolding in_table
guarded inner below h e s v = elim (Bool-cases (is_present e)) [
  | inl z ↦ elim (Bool-cases (is_huge e)) [
    | inl y ↦ rw (z, y) (Freed-none s v)
    | inr y ↦ rw (z, y) (below_table inner below h e s v)
  ]
  | inr z ↦ rw z (Freed-none s v)
]

free_pt-Freed :
    (t : ℕ) (s : Vmm) → Marks.IsValid s.pmm → Freed s (free_pt t s) (λ g. in_pt s.mem g t)
unfolding free_pt_from in_pt
free_pt-Freed t s v =
    loop-Freed free_pt_from (λ e s. if is_present e then free_at (address e) s else s)
      (λ m g e. is_present e && (e / 4096 == g)) (λ i t s. refl) (λ n i t s. refl) one 512 0 t s v
  where
    one :
        (e : ℕ) (s : Vmm)
        → Marks.IsValid s.pmm
        → Freed s
            (if is_present e then free_at (address e) s else s)
            (λ g. is_present e && (e / 4096 == g))
    one e s v = elim (Bool-cases (is_present e)) [
      | inl z ↦ rw z (
          let q : address e / 4096 ≡ e / 4096 = omega arith in
          Freed-same s _ _ _ (Freed-at s (address e) v) (λ g. rw q refl))
      | inr z ↦ rw z (Freed-none s v)
    ]

free_pd-Freed :
    (t : ℕ) (s : Vmm) → Marks.IsValid s.pmm → Freed s (free_pd t s) (λ g. in_pd s.mem g t)
unfolding free_pd_from in_pd
free_pd-Freed t s v =
    loop-Freed free_pd_from
      (λ e s.
        if not (is_present e) || is_huge e then s else free_at (address e) (free_pt (address e) s))
      (λ m g e. in_table (in_pt m g) g e) (λ i t s. refl) (λ n i t s. refl)
      (guarded free_pt in_pt free_pt-Freed) 512 0 t s v

free_pdpt-Freed :
    (t : ℕ) (s : Vmm) → Marks.IsValid s.pmm → Freed s (free_pdpt t s) (λ g. in_pdpt s.mem g t)
unfolding free_pdpt_from in_pdpt
free_pdpt-Freed t s v =
    loop-Freed free_pdpt_from
      (λ e s.
        if not (is_present e) || is_huge e then s else free_at (address e) (free_pd (address e) s))
      (λ m g e. in_table (in_pd m g) g e) (λ i t s. refl) (λ n i t s. refl)
      (guarded free_pd in_pd free_pd-Freed) 512 0 t s v

-- On a valid frame allocator, and for a root that is neither null nor the kernel's,
-- `vmm_destroy_address_space` gives back exactly the managed frames among the root, the tables and the
-- pages below its entries 1 to 511, huge pages left out; it keeps the allocator valid and memory as it was.
pub destroy_address_space-Freed :
    (root : ℕ) (s : Vmm)
    → Marks.IsValid s.pmm
    → root ≢ 0
    → root ≢ s.kernel_pml4
    → Freed s (destroy_address_space root s) (in_space s.mem root)
unfolding destroy_address_space free_root_from in_space
destroy_address_space-Freed root s v nz nk =
    let z : (root == 0) ≡ false = ground arith in
    let k : (root == s.kernel_pml4) ≡ false = ground arith in
    let a =
      loop-Freed free_root_from
        (λ e s. if not (is_present e) then s else free_at (address e) (free_pdpt (address e) s))
        (λ m g e. is_present e && ((e / 4096 == g) || in_pdpt m g (address e))) (λ i t s. refl)
        (λ n i t s. refl) top 511 1 root s v in
    rw (z, k)
      (Freed-trans s _ _ _ _ _ a (Freed-at (free_root_from 511 1 root s) root a.valid)
        (λ g. ground arith))
  where
    top :
        (e : ℕ) (s : Vmm)
        → Marks.IsValid s.pmm
        → Freed s
            (if not (is_present e) then s else free_at (address e) (free_pdpt (address e) s))
            (λ g. is_present e && ((e / 4096 == g) || in_pdpt s.mem g (address e)))
    top e s v = elim (Bool-cases (is_present e)) [
      | inl z ↦ rw z (below_table free_pdpt in_pdpt free_pdpt-Freed e s v)
      | inr z ↦ rw z (Freed-none s v)
    ]
