-- ===== src/Pmm/Frames.antt =====
-- `pmm_alloc_frame` and `pmm_free_frame` of kernel/pmm.cpp: which frame is handed out, what stays,
-- and that no frame is handed out twice.
use hrafn_os.Pmm.{Pmm, alloc_from, alloc_frame, free_frame}
use hrafn_os.Pmm.Count.{count_below-le}
use hrafn_os.Pmm.Marks.{IsValid, used, set_bit-IsValid, clear_bit-IsValid, used-set, used-clear}
use hrafn_os.Prelude.{
  ℕ, zero, suc, ◌+◌, ◌*◌, ◌/◌, ◌<◌, ◌≡◌, refl, ap, true, false, not, ◌&&◌, ◌||◌, inl, inr, ◌⊎◌,
  arith, ltb, ◌==◌, Bool-cases, lt→ltb, ◌≢◌,
}

-- Frame `f` was free and is now used; nothing else changed.
pub record Handed (s t : Pmm) (f : ℕ) : Type 0 where
  pub managed : f < s.total_frames
  pub was_free : used s f ≡ false
  pub lowest : (g : ℕ) → g < f → used s g ≡ true
  pub valid : IsValid t
  pub total : t.total_frames ≡ s.total_frames
  pub count : t.used_frames ≡ s.used_frames + 1
  pub bits : (g : ℕ) → used t g ≡ ((f == g) || used s g)

-- The outcome of an allocation: the lowest free frame's address, or 0 when all frames are used.
abbrev pub Allocated : Pmm → ℕ × Pmm → Type 0
Allocated s (addr, t) =
    ((f : ℕ) × (addr ≡ f * 4096) × Handed s t f)
    ⊎ ((addr ≡ 0) × (t ≡ s) × ((g : ℕ) → g < s.total_frames → used s g ≡ true))

alloc_from-Allocated :
    (n f : ℕ) (s : Pmm)
    → IsValid s
    → n + f ≡ s.total_frames
    → ((g : ℕ) → g < f → used s g ≡ true)
    → Allocated s (alloc_from n f s)
unfolding alloc_from
alloc_from-Allocated zero f s v e low = inr (refl, refl, λ g l. low g (omega arith))
alloc_from-Allocated (suc n) f s v e low = elim (Bool-cases (used s f)) [
  | inl u ↦ rw u (
      alloc_from-Allocated n (f + 1) s v (omega arith) (λ g l. elim (Bool-cases (f == g)) [
        | inl e' ↦ let fg : f ≡ g = ground arith in rw (← fg) u
        | inr e' ↦ low g (ground arith)
      ]))
  | inr u ↦ rw u (
      inl (
        f,
        (let m = v.small in omega arith),
        record {
          managed = omega arith;
          was_free = u;
          lowest = low;
          valid = set_bit-IsValid s f v (omega arith) u;
          total = refl;
          count =
              (let m = v.small in
                let c = v.counted in omega (arith, count_below-le (used s) s.total_frames));
          bits = used-set s f v (omega arith);
        },
      ))
]

-- `pmm_alloc_frame` on a valid allocator hands out the lowest free frame at its address, marks it
-- used, counts it, keeps the allocator valid and leaves every other frame alone; when no managed
-- frame is free it returns 0 and changes nothing.
pub alloc_frame-Allocated : (s : Pmm) → IsValid s → Allocated s (alloc_frame s)
unfolding alloc_frame
alloc_frame-Allocated s v =
    alloc_from-Allocated s.total_frames 0 s v (omega arith) (λ g l. elim l [ ])

-- `pmm_free_frame` keeps the allocator valid.
pub free_frame-IsValid : (s : Pmm) (p : ℕ) → IsValid s → IsValid (free_frame s p)
unfolding free_frame
free_frame-IsValid s p v = elim (Bool-cases (ltb (p / 4096) s.total_frames && used s (p / 4096))) [
  | inl e ↦ rw e (clear_bit-IsValid s (p / 4096) v (ground arith) (ground arith))
  | inr e ↦ rw e v
]

-- On a valid allocator `pmm_free_frame` frees the frame that holds the address, if that is managed, and
-- no other.
pub used-free_frame :
    (s : Pmm) (p : ℕ)
    → IsValid s
    → (g : ℕ) → used (free_frame s p) g ≡ (not (p / 4096 == g && ltb g s.total_frames) && used s g)
unfolding free_frame
used-free_frame s p v g = elim (Bool-cases (ltb (p / 4096) s.total_frames && used s (p / 4096))) [
  | inl e ↦ rw e (ground (arith, used-clear s (p / 4096) v (ground arith) g))
  | inr e ↦ ground (arith, ap (used s) {x = p / 4096} {y = g})
]

free_frame-Handed :
    (s t : Pmm) (f : ℕ)
    → IsValid s
    → Handed s t f
    → ((g : ℕ) → used (free_frame t (f * 4096)) g ≡ used s g)
      × ((free_frame t (f * 4096)).used_frames ≡ s.used_frames)
unfolding free_frame
free_frame-Handed s t f v h =
    let m = v.small in
    let c = v.counted in
    let k = count_below-le (used s) s.total_frames in
    let ef : f * 4096 / 4096 ≡ f = omega arith in
    let lf : f < t.total_frames = let e = h.total in let l = h.managed in omega arith in
    let uf : used t f ≡ true = ground (arith, h.bits f) in
    let wf = h.was_free in
    let cnt = h.count in
    (
      λ g.
          rw (ef, lt→ltb _ _ lf, uf)
            (ground (arith, used-clear t f h.valid lf g, h.bits g, ap (used s) {x = f} {y = g})),
      rw (ef, lt→ltb _ _ lf, uf) (omega arith),
    )

-- Where `pmm_alloc_frame` on a valid allocator returns a frame, giving that frame back restores
-- every bit and the count of used frames.
pub free_frame-alloc_frame :
    (s : Pmm)
    → IsValid s
    → (alloc_frame s).0 ≢ 0
    → let (p, t) = alloc_frame s in
      ((g : ℕ) → used (free_frame t p) g ≡ used s g)
      × ((free_frame t p).used_frames ≡ s.used_frames)
free_frame-alloc_frame s v ne = elim (alloc_frame-Allocated s v) [
  | inl (f, e, h) ↦ rw e (free_frame-Handed s _ f v h)
  | inr (e, _, _) ↦ absurd (ne e)
]

-- Two allocations from a valid allocator that both succeed, with nothing given back between them,
-- return different frames.
pub alloc_frame-distinct :
    (s : Pmm)
    → IsValid s
    → (alloc_frame s).0 ≢ 0
    → (alloc_frame (alloc_frame s).1).0 ≢ 0
    → (alloc_frame s).0 ≢ (alloc_frame (alloc_frame s).1).0
alloc_frame-distinct s v ne nq = elim (alloc_frame-Allocated s v) [
  | inl (f, e, h) ↦ elim (alloc_frame-Allocated _ h.valid) [
    | inl (g, e', h') ↦
        λ pq. let fg : f ≡ g = omega arith in let was = h'.was_free in ground (arith, h.bits g, fg)
    | inr (e', _, _) ↦ absurd (nq e')
  ]
  | inr (e, _, _) ↦ absurd (ne e)
]
