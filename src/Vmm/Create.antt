-- ===== src/Vmm/Create.antt =====
-- `vmm_create_address_space` of kernel/vmm.cpp: a new root shares the kernel's entry and maps no page
-- of the user part.
use hrafn_os.Pmm.{Memory, alloc_frame}
use hrafn_os.Pmm.Marks.{used}
use hrafn_os.Pmm.Frames.{Handed}
use hrafn_os.Vmm.{
  Vmm, entry, set_entry, clear_entries, alloc_table, create_address_space, pml4_index,
}
use hrafn_os.Vmm.Entry.{
  entry-set_entry, entry-set_entry_apart, set_entry-outside, set_entry-bytes, clear_entries-outside,
  clear_entries-bytes, clear_entries-zero, entry-clear_entries_other, entry-lt,
}
use hrafn_os.Vmm.Tree.{Tree, IsTables}
use hrafn_os.Vmm.Step.{alloc_frame-Handed}
use hrafn_os.Vmm.Walk.{translate, table_of, page_of}
use hrafn_os.Prelude.{
  ℕ, ◌+◌, ◌*◌, ◌/◌, ◌%◌, ◌≤◌, ◌<◌, ◌≡◌, ◌≢◌, refl, ap, ◌∙◌, true, false, inl, inr, ◌⊎◌, none, arith,
  ◌==◌, Bool-cases, if◌then◌else◌,
}

-- A root in frame `n`, which was free, beside the tables that were there.
pub record Created (s t : Vmm) (tree tree' : Tree) (n : ℕ) : Type 0 where
  pub was_free : used s.pmm n ≡ false
  pub tables : IsTables t tree'
  pub root : tree'.level n ≡ 4
  pub levels : (g : ℕ) → used s.pmm g ≡ true → tree'.level g ≡ tree.level g
  pub shared : entry t.mem (n * 4096) 0 ≡ entry s.mem s.kernel_pml4 0
  pub unmapped : (u v : ℕ) → 1 ≤ pml4_index v → translate t.mem u n v ≡ none
  pub others : (a : ℕ) → used s.pmm (a / 4096) ≡ true → t.mem a ≡ s.mem a
  pub count : t.pmm.used_frames ≡ s.pmm.used_frames + 1

module _ (s : Vmm) (tree : Tree) (k : ℕ) (w : IsTables s tree) (kernel : s.kernel_pml4 ≡ k * 4096)
    (taken : used s.pmm k ≡ true) (n : ℕ) (h : Handed s.pmm (alloc_frame s.pmm).1 n) where
  abbrev cleared : Memory
  cleared = clear_entries 512 0 (n * 4096) s.mem

  abbrev created : Vmm
  created = record s {
    mem = set_entry (n * 4096) 0 (entry cleared s.kernel_pml4 0) cleared;
    pmm = (alloc_frame s.pmm).1;
  }

  abbrev new_tree : Tree
  new_tree = record tree { level = λ g. if g == n then 4 else tree.level g }

  ne_used : (g : ℕ) → used s.pmm g ≡ true → g ≢ n
  ne_used g u q = let b = h.was_free in let c = ap (used s.pmm) q in absurd (cc)

  kernel_entry : entry cleared s.kernel_pml4 0 ≡ entry s.mem s.kernel_pml4 0
  kernel_entry = rw kernel (entry-clear_entries_other n s.mem k 0 (omega arith) (ne_used k taken))

  empty : (j : ℕ) → 1 ≤ j → j < 512 → entry created.mem (n * 4096) j ≡ 0
  empty j one lj =
      entry-set_entry_apart cleared n 0 _ (omega arith) n j lj (inr (λ q. omega arith))
      ∙ clear_entries-zero 512 0 n s.mem j (omega arith) (omega arith) (omega arith)

  as_before :
      (g j : ℕ) → j < 512 → g ≢ n → entry created.mem (g * 4096) j ≡ entry s.mem (g * 4096) j
  as_before g j lj ne =
      entry-set_entry_apart cleared n 0 _ (omega arith) g j lj (inl ne)
      ∙ entry-clear_entries_other n s.mem g j lj ne

  created_leads :
      (g j : ℕ)
      → 2 ≤ new_tree.level g
      → (1 ≤ j) ⊎ (new_tree.level g < 4)
      → j < 512
      → entry created.mem (g * 4096) j % 2 ≡ 1
      → (entry created.mem (g * 4096) j / 128 % 2 ≡ 0)
        × (new_tree.level (entry created.mem (g * 4096) j / 4096) + 1 ≡ new_tree.level g)
        × (new_tree.owner (entry created.mem (g * 4096) j / 4096) ≡ g * 512 + j)
  created_leads g j lg top lj on = elim (Bool-cases (g == n)) [
    | inl e ↦
        let q : g ≡ n = ground arith in
        let one : 1 ≤ j = ground arith in
        let z : entry created.mem (g * 4096) j ≡ 0 = rw q (empty j one lj) in absurd (omega arith)
    | inr e ↦
        let q : g ≢ n = ground arith in
        let z = as_before g j lj q in
        let same : new_tree.level g ≡ tree.level g = ground arith in
        let (hu, up, own) = w.leads g j (omega arith) (rw (← same) top) lj (rw (← z) on) in
        let ne = ne_used _ (w.taken (entry s.mem (g * 4096) j / 4096) (omega arith)) in
        (rw z hu, rw z (ground (arith, up)), rw z own)
  ]

  made : Created s created tree new_tree n
  unfolding translate table_of page_of
  made = record {
    was_free = h.was_free;
    tables = record {
      bytes =
          set_entry-bytes cleared (n * 4096) 0 _
            (clear_entries-bytes 512 0 (n * 4096) s.mem w.bytes);
      frames = h.valid;
      taken = λ g l. ground (arith, h.bits g, w.taken g);
      leads = created_leads;
    };
    root = ground arith;
    levels = λ g u. (let q = ne_used g u in ground arith);
    shared =
        let l = entry-lt s.mem s.kernel_pml4 0 w.bytes in
        entry-set_entry cleared n 0 _ (omega arith) (rw kernel_entry l) ∙ kernel_entry;
    unmapped = λ u v one. (let z = empty (pml4_index v) one (omega arith) in rw z refl);
    others = λ a u.
        set_entry-outside cleared n 0 _ (omega arith) a (ne_used (a / 4096) u)
        ∙ clear_entries-outside 512 0 n s.mem a (omega arith) (ne_used (a / 4096) u);
    count = h.count;
  }

-- On well-formed page tables with the kernel's root in a used frame and a frame to spare,
-- `vmm_create_address_space` returns a frame that was free, now a root whose first entry is the
-- kernel's and which maps no address of the user part; the tables stay well-formed, nothing is written
-- to a used frame, and one more frame is used.
pub create_address_space-Created :
    (s : Vmm) (tree : Tree) (k : ℕ)
    → IsTables s tree
    → s.kernel_pml4 ≡ k * 4096
    → used s.pmm k ≡ true
    → s.pmm.used_frames < s.pmm.total_frames
    → (n : ℕ) × (tree' : Tree) × ((create_address_space s).0 ≡ n * 4096)
      × Created s (create_address_space s).1 tree tree' n
unfolding create_address_space alloc_table
create_address_space-Created s tree k w kernel taken room =
    let (n, q, h) = alloc_frame-Handed s.pmm w.frames room in
    (n, new_tree s tree k w kernel taken n h, q, rw q (made s tree k w kernel taken n h))
