-- ===== src/Vmm/Present.antt =====
-- `next_table` of kernel/vmm.cpp at an entry that leads to a table: only its user flag may change.
use hrafn_os.Vmm.{Vmm, entry, set_entry, page_user}
use hrafn_os.Vmm.Entry.{
  user_entry, entry-set_entry, entry-set_entry_apart, set_entry-outside, set_entry-bytes, entry-lt,
}
use hrafn_os.Vmm.Tree.{Tree, IsTables, Kept, Stepped, Kept-same}
use hrafn_os.Prelude.{
  ℕ, ◌+◌, ◌*◌, ◌/◌, ◌%◌, ◌≤◌, ◌<◌, max, ◌≡◌, refl, ap, ◌∙◌, ◌&&◌, inl, inr, ◌⊎◌, bit_and, bit_or,
  arith, ◌==◌, Bool-cases,
}

module _ (f i flags : ℕ) (s : Vmm) (tree : Tree) (w : IsTables s tree) (lf : 2 ≤ tree.level f)
    (li : i < 512) (inner : (1 ≤ i) ⊎ (tree.level f < 4)) where
  -- The entry leads to a table already; the user flag may be added.
  module _ (present : entry s.mem (f * 4096) i % 2 ≡ 1) where
    abbrev pub old : ℕ
    old = entry s.mem (f * 4096) i

    abbrev pub raised : ℕ
    raised = bit_or old (bit_and flags page_user)

    abbrev pub raised_in : Vmm
    raised_in = record s { mem = set_entry (f * 4096) i raised s.mem }

    raised_value :
        entry raised_in.mem (f * 4096) i
        ≡ old / 8 * 8 + max (old / 4 % 2) (flags / 4 % 2) * 4 + old % 4
    raised_value =
        let e = user_entry old flags in
        let l = entry-lt s.mem (f * 4096) i w.bytes in
        entry-set_entry s.mem f i raised li (omega arith) ∙ e

    raised_Kept : Kept old (entry raised_in.mem (f * 4096) i)
    raised_Kept =
        let v = raised_value in
        record {
          present = omega arith;
          huge = omega arith;
          user = omega arith;
          frame = omega arith;
        }

    all-Kept :
        (g j : ℕ)
        → j < 512
        → entry s.mem (g * 4096) j % 2 ≡ 1
        → Kept (entry s.mem (g * 4096) j) (entry raised_in.mem (g * 4096) j)
    all-Kept g j lj on = elim (Bool-cases ((g == f) && (j == i))) [
      | inl t ↦
          let q : g ≡ f = ground arith in let r : j ≡ i = ground arith in rw (q, r) raised_Kept
      | inr t ↦ Kept-same _ _ (entry-set_entry_apart s.mem f i raised li g j lj (ground arith)) on
    ]

    was_present :
        (g j : ℕ)
        → j < 512
        → entry raised_in.mem (g * 4096) j % 2 ≡ 1
        → entry s.mem (g * 4096) j % 2 ≡ 1
    was_present g j lj on = elim (Bool-cases ((g == f) && (j == i))) [
      | inl t ↦ let q : g ≡ f = ground arith in let r : j ≡ i = ground arith in rw (q, r) present
      | inr t ↦ rw (← entry-set_entry_apart s.mem f i raised li g j lj (ground arith)) on
    ]

    raised-IsTables : IsTables raised_in tree
    raised-IsTables = record {
      bytes = set_entry-bytes s.mem (f * 4096) i raised w.bytes;
      frames = w.frames;
      taken = w.taken;
      leads = λ g j lg root lj on.
          let was = was_present g j lj on in
          let k = all-Kept g j lj was in
          let (hu, up, own) = w.leads g j lg root lj was in
          (k.huge ∙ hu, rw k.frame up, rw k.frame own);
    }

    pub raised_Stepped : Stepped s raised_in tree tree f i (flags / 4 % 2) (old / 4096)
    raised_Stepped = record {
      grown = record {
        tables = raised-IsTables;
        levels = λ g u. refl;
        owners = λ g u. refl;
        still = λ g u. u;
        kept = λ g j lg lj on. all-Kept g j lj on;
        others = λ a u z.
            set_entry-outside s.mem f i raised li a (λ q. let c = ap tree.level q in omega arith);
        total = refl;
        kernel = refl;
      };
      linked =
          (let v = raised_value in
            let hu = (w.leads f i lf inner li present).0 in
            record {
              present = omega arith;
              huge = omega arith;
              user = omega arith;
              frame = omega arith;
            });
      below = (w.leads f i lf inner li present).1;
      cost = omega arith;
      owned = (w.leads f i lf inner li present).2;
    }
