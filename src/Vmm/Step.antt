-- ===== src/Vmm/Step.antt =====
-- `next_table` of kernel/vmm.cpp on well-formed page tables: it links a table of the next level into
-- the entry, and keeps every link that was there.
use hrafn_os.Pmm.{Pmm, alloc_frame}
use hrafn_os.Pmm.Count.{count_below-all}
use hrafn_os.Pmm.Marks.{used}
use hrafn_os.Pmm.Marks
use hrafn_os.Pmm.Frames.{Handed, alloc_frame-Allocated}
use hrafn_os.Vmm.{Vmm, entry, is_present, alloc_table, next_table}
use hrafn_os.Vmm.Entry.{is_present-odd, user_entry}
use hrafn_os.Vmm.Tree.{Tree, IsTables, Stepped}
use hrafn_os.Vmm.Fresh.{new_tree, stepped}
use hrafn_os.Vmm.Present.{raised_Stepped}
use hrafn_os.Prelude.{ℕ, ◌*◌, ◌/◌, ◌%◌, ◌≤◌, ◌<◌, ◌≡◌, inl, inr, ◌⊎◌, arith, Bool-cases}

-- With fewer frames used than there are, there is one to hand out.
pub alloc_frame-Handed :
    (s : Pmm)
    → Marks.IsValid s
    → s.used_frames < s.total_frames
    → (f : ℕ) × ((alloc_frame s).0 ≡ f * 4096) × Handed s (alloc_frame s).1 f
alloc_frame-Handed s v l = elim (alloc_frame-Allocated s v) [
  | inl h ↦ h
  | inr (_, _, all) ↦
      let c = v.counted in
      let k = count_below-all (used s) s.total_frames all in absurd (omega arith)
]

module _ (f i flags : ℕ) (s : Vmm) (tree : Tree) (w : IsTables s tree) (lf : 2 ≤ tree.level f)
    (li : i < 512) (inner : (1 ≤ i) ⊎ (tree.level f < 4)) where
  pub next_table-Stepped :
      s.pmm.used_frames < s.pmm.total_frames
      → (n : ℕ) × (tree' : Tree) × ((next_table (f * 4096) i flags s).0 ≡ n * 4096)
        × Stepped s (next_table (f * 4096) i flags s).1 tree tree' f i (flags / 4 % 2) n
  unfolding next_table alloc_table
  next_table-Stepped room = elim (Bool-cases (is_present (entry s.mem (f * 4096) i))) [
    | inl e ↦
        let o = is_present-odd (entry s.mem (f * 4096) i) in
        let on : entry s.mem (f * 4096) i % 2 ≡ 1 = ground arith in
        let v = user_entry (entry s.mem (f * 4096) i) flags in
        (
          entry s.mem (f * 4096) i / 4096,
          tree,
          rw e (omega arith),
          rw e (raised_Stepped f i flags s tree w lf li inner on),
        )
    | inr e ↦
        let (n, q, h) = alloc_frame-Handed s.pmm w.frames room in
        let o = is_present-odd (entry s.mem (f * 4096) i) in
        let off : entry s.mem (f * 4096) i % 2 ≡ 0 = ground arith in
        (
          n,
          new_tree f i flags s tree w lf li inner n (alloc_frame s.pmm).1 h off,
          rw e q,
          rw (e, q) (stepped f i flags s tree w lf li inner n (alloc_frame s.pmm).1 h off),
        )
  ]
