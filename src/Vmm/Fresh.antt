-- ===== src/Vmm/Fresh.antt =====
-- `next_table` of kernel/vmm.cpp at an empty entry: the new table is cleared and linked.
use hrafn_os.Pmm.{Pmm, Memory}
use hrafn_os.Pmm.Marks.{used}
use hrafn_os.Pmm.Frames.{Handed}
use hrafn_os.Vmm.{Vmm, entry, set_entry, want, clear_entries}
use hrafn_os.Vmm.Entry.{
  table_entry, entry-set_entry, entry-set_entry_apart, set_entry-outside, set_entry-bytes,
  clear_entries-outside, clear_entries-bytes, clear_entries-zero, entry-clear_entries_other,
}
use hrafn_os.Vmm.Tree.{Tree, IsTables, Stepped, Kept-same}
use hrafn_os.Prelude.{
  ℕ, ◌+◌, ◌-◌, ◌*◌, ◌/◌, ◌%◌, ◌≤◌, ◌<◌, ◌≡◌, ◌≢◌, refl, ap, ◌∙◌, ◌&&◌, inl, inr, ◌⊎◌, bit_or, arith,
  ◌==◌, Bool-cases, if◌then◌else◌,
}

module _ (f i flags : ℕ) (s : Vmm) (tree : Tree) (w : IsTables s tree) (lf : 2 ≤ tree.level f)
    (li : i < 512) (inner : (1 ≤ i) ⊎ (tree.level f < 4)) where
  -- The entry is empty: the new table is in frame `n`.
  module _ (n : ℕ) (p : Pmm) (h : Handed s.pmm p n)
      (absent : entry s.mem (f * 4096) i % 2 ≡ 0) where
    abbrev pub value : ℕ
    value = bit_or (n * 4096) (want flags)

    abbrev pub cleared : Memory
    cleared = clear_entries 512 0 (n * 4096) s.mem

    abbrev pub linked_in : Vmm
    linked_in = record s { mem = set_entry (f * 4096) i value cleared; pmm = p }

    abbrev pub new_tree : Tree
    new_tree = record {
      level = λ g. if g == n then tree.level f - 1 else tree.level g;
      owner = λ g. if g == n then f * 512 + i else tree.owner g;
    }

    f_ne : n ≢ f
    f_ne e =
        let a = w.taken f (omega arith) in
        let b = h.was_free in let c = ap (used s.pmm) e in absurd (cc)

    unlabelled : tree.level n ≡ 0
    unlabelled = elim (Bool-cases (tree.level n == 0)) [
      | inl e ↦ ground arith
      | inr e ↦ let a = w.taken n (ground arith) in let b = h.was_free in absurd (cc)
    ]

    new_value : entry linked_in.mem (f * 4096) i ≡ n * 4096 + 3 + flags / 4 % 2 * 4
    new_value =
        let e = table_entry n flags in
        let m = w.frames.small in
        let l = h.managed in entry-set_entry cleared f i value li (omega arith) ∙ e

    other_value :
        (g j : ℕ)
        → j < 512
        → g ≢ n
        → (g ≢ f) ⊎ (j ≢ i)
        → entry linked_in.mem (g * 4096) j ≡ entry s.mem (g * 4096) j
    other_value g j lj gn out =
        entry-set_entry_apart cleared f i value li g j lj out
        ∙ entry-clear_entries_other n s.mem g j lj gn

    fresh_value : (j : ℕ) → j < 512 → entry linked_in.mem (n * 4096) j ≡ 0
    fresh_value j lj =
        entry-set_entry_apart cleared f i value li n j lj (inl f_ne)
        ∙ clear_entries-zero 512 0 n s.mem j (omega arith) (omega arith) (omega arith)

    -- Entry `j` of table `g` in the new state: of the new table, the link itself, or as it was.
    entry_cases :
        (g j : ℕ)
        → j < 512
        → ((g ≡ n) × (entry linked_in.mem (g * 4096) j ≡ 0))
          ⊎ ((g ≢ n)
              × (g ≡ f)
              × (j ≡ i)
              × (entry linked_in.mem (g * 4096) j ≡ n * 4096 + 3 + flags / 4 % 2 * 4))
          ⊎ ((g ≢ n) × (entry linked_in.mem (g * 4096) j ≡ entry s.mem (g * 4096) j))
    entry_cases g j lj = elim (Bool-cases (g == n)) [
      | inl e ↦ let q : g ≡ n = ground arith in inl (q, rw q (fresh_value j lj))
      | inr e ↦
          let gn : g ≢ n = ground arith in
          elim (Bool-cases ((g == f) && (j == i))) [
            | inl t ↦
                let q : g ≡ f = ground arith in
                let r : j ≡ i = ground arith in inr (inl (gn, q, r, rw (q, r) new_value))
            | inr t ↦
                let out : (g ≢ f) ⊎ (j ≢ i) = ground arith in
                inr (inr (gn, other_value g j lj gn out))
          ]
    ]

    new_leads :
        (g j : ℕ)
        → 2 ≤ new_tree.level g
        → (1 ≤ j) ⊎ (new_tree.level g < 4)
        → j < 512
        → entry linked_in.mem (g * 4096) j % 2 ≡ 1
        → (entry linked_in.mem (g * 4096) j / 128 % 2 ≡ 0)
          × (new_tree.level (entry linked_in.mem (g * 4096) j / 4096) + 1 ≡ new_tree.level g)
          × (new_tree.owner (entry linked_in.mem (g * 4096) j / 4096) ≡ g * 512 + j)
    new_leads g j lg root lj on = elim (entry_cases g j lj) [
      | inl (q, z) ↦ absurd (omega arith)
      | inr (inl (gn, q, r, z)) ↦
          let a : entry linked_in.mem (g * 4096) j / 4096 ≡ n = omega arith in
          (omega arith, rw a (ground arith), rw (a, q, r) (ground arith))
      | inr (inr (gn, z)) ↦
          let k : new_tree.level g ≡ tree.level g = ground arith in
          let (hu, up, own) = w.leads g j (omega arith) (rw (← k) root) lj (omega arith) in
          let ne : entry s.mem (g * 4096) j / 4096 ≢ n =
            λ e. (let c = ap tree.level e in let d = unlabelled in omega arith) in
          (rw z hu, rw z (ground (arith, up)), rw z (ground (arith, own)))
    ]

    new-IsTables : IsTables linked_in new_tree
    new-IsTables = record {
      bytes =
          set_entry-bytes cleared (f * 4096) i value
            (clear_entries-bytes 512 0 (n * 4096) s.mem w.bytes);
      frames = h.valid;
      taken = λ g l. ground (arith, h.bits g, w.taken g);
      leads = new_leads;
    }

    pub stepped : Stepped s linked_in tree new_tree f i (flags / 4 % 2) n
    stepped = record {
      grown = record {
        tables = new-IsTables;
        levels = λ g u. (let a = h.was_free in ground (arith, ap (used s.pmm) {x = g} {y = n}));
        owners = λ g u. (let a = h.was_free in ground (arith, ap (used s.pmm) {x = g} {y = n}));
        still = λ g u. ground (arith, h.bits g);
        kept = λ g j lg lj on. elim (entry_cases g j lj) [
          | inl (q, _) ↦ (let c = ap tree.level q in let d = unlabelled in absurd (omega arith))
          | inr (inl (_, q, r, _)) ↦
              (let on' : entry s.mem (f * 4096) i % 2 ≡ 1 = rw (← q, ← r) on in
                absurd (omega arith))
          | inr (inr (_, z)) ↦ Kept-same _ _ z on
        ];
        others = λ a u z.
            set_entry-outside cleared f i value li a (λ q. let c = ap tree.level q in omega arith)
            ∙ clear_entries-outside 512 0 n s.mem a (omega arith)
                (λ q. let b = h.was_free in let c = ap (used s.pmm) q in absurd (cc));
        total = h.total;
        kernel = refl;
      };
      linked =
          (let v = new_value in
            record {
              present = omega arith;
              huge = omega arith;
              user = omega arith;
              frame = omega arith;
            });
      below = ground arith;
      cost = (let c = h.count in omega arith);
      owned = ground arith;
    }
