-- ===== src/Vmm/Map.antt =====
-- `map_in` of kernel/vmm.cpp on well-formed page tables: the page is mapped, and no other address of
-- any address space changes its translation.
use hrafn_os.Pmm.{Memory}
use hrafn_os.Pmm.Marks.{used}
use hrafn_os.Vmm.{
  Vmm, entry, set_entry, address, page_present, pml4_index, pdpt_index, pd_index, pt_index,
  next_table, map_in,
}
use hrafn_os.Vmm.Entry.{
  page_entry, entry-set_entry, entry-set_entry_apart, set_entry-outside, set_entry-bytes,
}
use hrafn_os.Vmm.Tree.{Tree, IsTables, Grown, Linked-Kept, Grown-trans}
use hrafn_os.Vmm.Step.{next_table-Stepped}
use hrafn_os.Vmm.Walk.{Walk, translate, translate-Walk, Walk-of_translate}
use hrafn_os.Vmm.Chain.{Chain, walk-Chain, Chain-unique, walk-kept, walk-set_entry}
use hrafn_os.Prelude.{
  ℕ, ◌+◌, ◌*◌, ◌/◌, ◌%◌, ◌^◌, ◌≤◌, ◌<◌, ◌≡◌, ◌≢◌, refl, ap, ◌∙◌, true, inl, inr, ◌⊎◌, some, bit_or,
  arith, ◌==◌, Bool-cases,
}

-- The pages that two addresses below 2 ^ 48 lie in.
abbrev pub page_number : ℕ → ℕ
page_number v = v / 4096 % 2 ^ 36

-- The page of `virt` is mapped in root `r` to frame `p`, for users where `u` is 1, and nothing else
-- about the address spaces has changed.
pub record Mapped (s t : Vmm) (tree tree' : Tree) (r virt p u : ℕ) : Type 0 where
  pub tables : IsTables t tree'
  pub roots : (g : ℕ) → tree.level g ≡ 4 → tree'.level g ≡ 4
  pub there :
      (v : ℕ)
      → page_number v ≡ page_number virt
      → translate t.mem u r v ≡ some (p * 4096 + v % 4096)
  pub elsewhere :
      (r' v u' x : ℕ)
      → tree.level r' ≡ 4
      → 1 ≤ pml4_index v
      → (r' ≢ r) ⊎ (page_number v ≢ page_number virt)
      → translate s.mem u' r' v ≡ some x
      → translate t.mem u' r' v ≡ some x
  pub others :
      (a : ℕ) → used s.pmm (a / 4096) ≡ true → tree.level (a / 4096) ≡ 0 → t.mem a ≡ s.mem a
  pub still : (g : ℕ) → used s.pmm g ≡ true → used t.pmm g ≡ true
  pub total : t.pmm.total_frames ≡ s.pmm.total_frames
  pub cost : t.pmm.used_frames ≤ s.pmm.used_frames + 3

walk-same_page :
    (m : Memory) (u r v virt n3 n2 n1 : ℕ)
    → page_number v ≡ page_number virt
    → Walk m u r virt n3 n2 n1
    → Walk m u r v n3 n2 n1
walk-same_page m u r v virt n3 n2 n1 e k =
    let q4 : pml4_index v ≡ pml4_index virt = omega arith in
    let q3 : pdpt_index v ≡ pdpt_index virt = omega arith in
    let q2 : pd_index v ≡ pd_index virt = omega arith in
    record { first = rw q4 k.first; second = rw q3 k.second; third = rw q2 k.third }

-- The three tables are linked, and the page's entry is not yet written.
record LinkedDown (s t : Vmm) (tree tree' : Tree) (r virt u n3 n2 n1 : ℕ) : Type 0 where
  grown : Grown s t tree tree'
  walk : Walk t.mem u r virt n3 n2 n1
  cost : t.pmm.used_frames ≤ s.pmm.used_frames + 3

module _ (r virt phys flags : ℕ) (s : Vmm) (tree : Tree) (w : IsTables s tree)
    (root : tree.level r ≡ 4) (user : 1 ≤ pml4_index virt) (lf : flags < 4096)
    (lp : phys < 2 ^ 64) where
  abbrev u : ℕ
  u = flags / 4 % 2

  abbrev value : ℕ
  value = bit_or (bit_or (address phys) flags) page_present

  abbrev written : ℕ → Vmm → Vmm
  written n1 t = record t { mem = set_entry (n1 * 4096) (pt_index virt) value t.mem }

  linked_down :
      s.pmm.used_frames + 3 ≤ s.pmm.total_frames
      → (n3 : ℕ) × (n2 : ℕ) × (n1 : ℕ) × (tree' : Tree) × (t : Vmm) × (map_in
            (r * 4096)
            virt
            phys
            flags
            s
          ≡ written n1 t)
        × LinkedDown s t tree tree' r virt u n3 n2 n1
  unfolding map_in
  linked_down room =
      let (n3, t3, q3, a) =
        next_table-Stepped r (pml4_index virt) flags s tree w (omega arith) (omega arith) (inl user)
          (omega arith) in
      let s3 = (next_table (r * 4096) (pml4_index virt) flags s).1 in
      let b3 = a.below in
      let c3 = a.cost in
      let m3 = a.grown.total in
      let (n2, t2, q2, b) =
        next_table-Stepped n3 (pdpt_index virt) flags s3 t3 a.grown.tables (omega arith)
          (omega arith) (inr (omega arith)) (omega arith) in
      let s2 = (next_table (n3 * 4096) (pdpt_index virt) flags s3).1 in
      let b2 = b.below in
      let c2 = b.cost in
      let m2 = b.grown.total in
      let k2 = b.grown.levels n3 (a.grown.tables.taken n3 (omega arith)) in
      let (n1, t1, q1, c) =
        next_table-Stepped n2 (pd_index virt) flags s2 t2 b.grown.tables (omega arith) (omega arith)
          (inr (omega arith)) (omega arith) in
      let c1 = c.cost in
      let l3 = a.grown.levels r (w.taken r (omega arith)) in
      let g = Grown-trans a.grown.tables b.grown c.grown in
      (
        n3,
        n2,
        n1,
        t1,
        (next_table (n2 * 4096) (pd_index virt) flags s2).1,
        rw (q3, q2, q1) refl,
        record {
          grown = Grown-trans w a.grown g;
          walk = record {
            first =
                Linked-Kept a.linked
                  (g.kept r (pml4_index virt) (omega arith) (omega arith) a.linked.present);
            second =
                Linked-Kept b.linked
                  (c.grown.kept n3 (pdpt_index virt) (omega arith) (omega arith) b.linked.present);
            third = c.linked;
          };
          cost = omega arith;
        },
      )

  module _ (n3 n2 n1 : ℕ) (tree' : Tree) (t : Vmm)
      (d : LinkedDown s t tree tree' r virt u n3 n2 n1) where
    root_kept : (g : ℕ) → tree.level g ≡ 4 → tree'.level g ≡ 4
    root_kept g e = d.grown.levels g (w.taken g (omega arith)) ∙ e

    chain : Chain tree' r virt n3 n2 n1
    chain = walk-Chain t tree' u r virt n3 n2 n1 d.grown.tables (root_kept r root) user d.walk

    final_entry :
        entry (written n1 t).mem (n1 * 4096) (pt_index virt)
        ≡ (phys / 4096 * 4096 + flags) / 2 * 2 + 1
    final_entry =
        let e = page_entry phys flags lf in
        entry-set_entry t.mem n1 (pt_index virt) value (omega arith) (omega arith) ∙ e

    final-IsTables : IsTables (written n1 t) tree'
    final-IsTables = record {
      bytes = set_entry-bytes t.mem (n1 * 4096) (pt_index virt) value d.grown.tables.bytes;
      frames = d.grown.tables.frames;
      taken = d.grown.tables.taken;
      leads = λ g j lg top lj on.
          let z =
            entry-set_entry_apart t.mem n1 (pt_index virt) value (omega arith) g j lj
              (inl (λ q. let c = chain.level1 in let p = ap tree'.level q in omega arith)) in
          let (hu, up, own) = d.grown.tables.leads g j lg top lj (rw (← z) on) in
          (rw z hu, rw z up, rw z own);
    }

    page_there :
        (v : ℕ)
        → page_number v ≡ page_number virt
        → translate (written n1 t).mem u r v ≡ some (phys / 4096 * 4096 + v % 4096)
    page_there v e =
        let k =
          walk-set_entry t.mem tree' u r virt n3 n2 n1 n1 (pt_index virt) value (root_kept r root)
            chain chain.level1 (omega arith) d.walk in
        let f = final_entry in
        let q : pt_index v ≡ pt_index virt = omega arith in
        translate-Walk (written n1 t).mem u r v n3 n2 n1 ((phys / 4096 * 4096 + flags) / 2 * 2 + 1)
          (phys / 4096) (walk-same_page (written n1 t).mem u r v virt n3 n2 n1 e k) (rw q f)
          (omega arith) (omega arith) (omega arith)

    other_entry :
        (r' v m3 m2 m1 : ℕ)
        → Chain tree' r' v m3 m2 m1
        → (r' ≢ r) ⊎ (page_number v ≢ page_number virt)
        → (m1 ≢ n1) ⊎ (pt_index v ≢ pt_index virt)
    other_entry r' v m3 m2 m1 c out = elim (Bool-cases (m1 == n1)) [
      | inl e ↦
          let q : n1 ≡ m1 = ground arith in
          let (same_root, same) =
            Chain-unique tree' r' v m3 m2 r virt n3 n2 m1 c (rw (← q) chain) in
          inr (λ p. omega arith)
      | inr e ↦ inl (ground arith)
    ]

    page_elsewhere :
        (r' v u' x : ℕ)
        → tree.level r' ≡ 4
        → 1 ≤ pml4_index v
        → (r' ≢ r) ⊎ (page_number v ≢ page_number virt)
        → translate s.mem u' r' v ≡ some x
        → translate (written n1 t).mem u' r' v ≡ some x
    page_elsewhere r' v u' x root' user' out h =
        let (m3, m2, m1, k, on, us, e) = Walk-of_translate s.mem u' r' v x h in
        let c = walk-Chain s tree u' r' v m3 m2 m1 w root' user' k in
        let kt = walk-kept s t tree tree' u' r' v m3 m2 m1 root' c d.grown k in
        let ct = walk-Chain t tree' u' r' v m3 m2 m1 d.grown.tables (root_kept r' root') user' kt in
        let l1 = c.level1 in
        let last = d.grown.kept m1 (pt_index v) (omega arith) (omega arith) on in
        let apart : (m1 ≢ n1) ⊎ (pt_index v ≢ pt_index virt) = other_entry r' v m3 m2 m1 ct out in
        let z =
          entry-set_entry_apart t.mem n1 (pt_index virt) value (omega arith) m1 (pt_index v)
            (omega arith) apart in
        let p = last.present in
        let q = last.user in
        translate-Walk (written n1 t).mem u' r' v m3 m2 m1 _ _
          (walk-set_entry t.mem tree' u' r' v m3 m2 m1 n1 (pt_index virt) value (root_kept r' root')
            ct chain.level1 (omega arith) kt)
          z p (omega arith) last.frame
        ∙ ap some e

    mapped : Mapped s (written n1 t) tree tree' r virt (phys / 4096) u
    mapped = record {
      tables = final-IsTables;
      roots = root_kept;
      there = page_there;
      elsewhere = page_elsewhere;
      others = λ a on z.
          set_entry-outside t.mem n1 (pt_index virt) value (omega arith) a (λ q.
            let c = chain.level1 in
            let l = d.grown.levels (a / 4096) on in let p = ap tree'.level q in omega arith)
          ∙ d.grown.others a on z;
      still = d.grown.still;
      total = d.grown.total;
      cost = d.cost;
    }

-- On well-formed page tables, with `virt` in the user part of the address space, flags in the low 12
-- bits, 64-bit `phys` and three frames to spare: `map_in` keeps the tables well-formed, maps the page of
-- `virt` to the frame of `phys`, for users if the flags say so; no other page of this or another root's
-- user part loses or changes its translation, nothing is written to a used frame that is no table, and
-- at most three frames are taken.
pub map_in-Mapped :
    (r virt phys flags : ℕ) (s : Vmm) (tree : Tree)
    → IsTables s tree
    → tree.level r ≡ 4
    → 1 ≤ pml4_index virt
    → flags < 4096
    → phys < 2 ^ 64
    → s.pmm.used_frames + 3 ≤ s.pmm.total_frames
    → (tree' : Tree) × Mapped s
        (map_in (r * 4096) virt phys flags s)
        tree
        tree'
        r
        virt
        (phys / 4096)
        (flags / 4 % 2)
map_in-Mapped r virt phys flags s tree w root user lf lp room =
    let (n3, n2, n1, tree', t, e, d) =
      linked_down r virt phys flags s tree w root user lf lp room in
    (tree', rw e (mapped r virt phys flags s tree w root user lf lp n3 n2 n1 tree' t d))
