-- ===== src/Elf/Fresh.antt =====
-- A page of kernel/elf.cpp in the address space: filling a fresh frame leaves the page tables and their
-- translations alone.
use hrafn_os.Memory.{read64-same}
use hrafn_os.Pmm.{Pmm, Memory}
use hrafn_os.Pmm.Marks.{used}
use hrafn_os.Pmm.Frames.{Handed}
use hrafn_os.Vmm.{Vmm, entry, pml4_index, pdpt_index, pd_index, pt_index}
use hrafn_os.Vmm.Tree.{Tree, IsTables}
use hrafn_os.Vmm.Walk.{translate, translate-Walk, Walk-of_translate}
use hrafn_os.Vmm.Chain.{walk-Chain}
use hrafn_os.Prelude.{ℕ, ◌+◌, ◌*◌, ◌/◌, ◌≤◌, ◌<◌, ◌≡◌, ◌≢◌, refl, ap, ◌∙◌, some, arith}

module _ (s : Vmm) (tree : Tree) (w : IsTables s tree) (p : Pmm) (n : ℕ) (h : Handed s.pmm p n)
    (m : Memory) (bytes : (a : ℕ) → m a < 256)
    (outside : (a : ℕ) → a / 4096 ≢ n → m a ≡ s.mem a) where
  abbrev filled : Vmm
  filled = record s { mem = m; pmm = p }

  not_table : (g : ℕ) → 1 ≤ tree.level g → g ≢ n
  not_table g l e =
      let a = w.taken g l in let b = h.was_free in let c = ap (used s.pmm) e in absurd (cc)

  entry_same :
      (g j : ℕ) → 1 ≤ tree.level g → j < 512 → entry m (g * 4096) j ≡ entry s.mem (g * 4096) j
  entry_same g j l lj =
      let ne = not_table g l in
      read64-same m s.mem (g * 4096 + 8 * j)
        (λ x lo hi. outside x (λ e. (let q : x / 4096 ≡ g = omega arith in ne (omega arith))))

  pub filled-IsTables : IsTables filled tree
  filled-IsTables = record {
    bytes = bytes;
    frames = h.valid;
    taken = λ f l. ground (arith, h.bits f, w.taken f);
    leads = λ f i lf top li on.
        let z = entry_same f i (omega arith) li in
        let (hu, up, own) = w.leads f i lf top li (rw (← z) on) in (rw z hu, rw z up, rw z own);
  }

  pub filled-translate :
      (u r v x : ℕ)
      → tree.level r ≡ 4
      → 1 ≤ pml4_index v
      → translate s.mem u r v ≡ some x
      → translate m u r v ≡ some x
  filled-translate u r v x root user e =
      let (n3, n2, n1, k, on, us, q) = Walk-of_translate s.mem u r v x e in
      let c = walk-Chain s tree u r v n3 n2 n1 w root user k in
      let l3 = c.level3 in
      let l2 = c.level2 in
      let l1 = c.level1 in
      translate-Walk m u r v n3 n2 n1 _ _
        (record {
          first = rw (entry_same r (pml4_index v) (omega arith) (omega arith)) k.first;
          second = rw (entry_same n3 (pdpt_index v) (omega arith) (omega arith)) k.second;
          third = rw (entry_same n2 (pd_index v) (omega arith) (omega arith)) k.third;
        })
        (entry_same n1 (pt_index v) (omega arith) (omega arith)) on us refl
      ∙ ap some q
