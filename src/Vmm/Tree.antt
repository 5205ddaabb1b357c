-- ===== src/Vmm/Tree.antt =====
-- Page tables as a tree: the shape that kernel/vmm.cpp keeps below each root, and what a change of
-- the tables may do to it.
use hrafn_os.Pmm.Marks.{used}
use hrafn_os.Pmm.Marks
use hrafn_os.Vmm.{Vmm, entry}
use hrafn_os.Prelude.{ℕ, ◌+◌, ◌*◌, ◌/◌, ◌%◌, ◌≤◌, ◌<◌, ◌≡◌, refl, ◌∙◌, true, ◌⊎◌, arith}

-- The tables below some roots, by frame: level 4 is a root, 1 a table whose entries are pages, 0 a frame
-- that holds no table; the owner `f * 512 + i` of a table is the entry `i` of table `f` that leads to it.
pub record Tree : Type 0 where
  pub level : ℕ → ℕ
  pub owner : ℕ → ℕ

-- The tables are as the tree says. Their frames are taken; a present entry leads one level down and is no
-- huge page, entry 0 of a root apart, which leads to the kernel's tables.
pub record IsTables (s : Vmm) (tree : Tree) : Type 0 where
  pub bytes : (a : ℕ) → s.mem a < 256
  pub frames : Marks.IsValid s.pmm
  pub taken : (f : ℕ) → 1 ≤ tree.level f → used s.pmm f ≡ true
  pub leads :
      (f i : ℕ)
      → 2 ≤ tree.level f
      → (1 ≤ i) ⊎ (tree.level f < 4)
      → i < 512
      → entry s.mem (f * 4096) i % 2 ≡ 1
      → (entry s.mem (f * 4096) i / 128 % 2 ≡ 0)
        × (tree.level (entry s.mem (f * 4096) i / 4096) + 1 ≡ tree.level f)
        × (tree.owner (entry s.mem (f * 4096) i / 4096) ≡ f * 512 + i)

-- An entry that was present still leads to the same frame, and a user may use it if he could before.
pub record Kept (e e' : ℕ) : Type 0 where
  pub present : e' % 2 ≡ 1
  pub huge : e' / 128 % 2 ≡ e / 128 % 2
  pub user : e / 4 % 2 ≤ e' / 4 % 2
  pub frame : e' / 4096 ≡ e / 4096

-- The entry leads to the table in frame `n`, and a user may use it where `u` is 1.
pub record Linked (e u n : ℕ) : Type 0 where
  pub present : e % 2 ≡ 1
  pub huge : e / 128 % 2 ≡ 0
  pub user : u ≤ e / 4 % 2
  pub frame : e / 4096 ≡ n

-- What a change of the tables leaves alone.
pub record Grown (s t : Vmm) (tree tree' : Tree) : Type 0 where
  pub tables : IsTables t tree'
  pub levels : (g : ℕ) → used s.pmm g ≡ true → tree'.level g ≡ tree.level g
  pub owners : (g : ℕ) → used s.pmm g ≡ true → tree'.owner g ≡ tree.owner g
  pub still : (g : ℕ) → used s.pmm g ≡ true → used t.pmm g ≡ true
  pub kept :
      (g j : ℕ)
      → 1 ≤ tree.level g
      → j < 512
      → entry s.mem (g * 4096) j % 2 ≡ 1
      → Kept (entry s.mem (g * 4096) j) (entry t.mem (g * 4096) j)
  pub others :
      (a : ℕ) → used s.pmm (a / 4096) ≡ true → tree.level (a / 4096) ≡ 0 → t.mem a ≡ s.mem a
  pub total : t.pmm.total_frames ≡ s.pmm.total_frames
  pub kernel : t.kernel_pml4 ≡ s.kernel_pml4

-- The entry `i` of the table in frame `f` leads to a table in frame `n`, for users where `u` is 1.
pub record Stepped (s t : Vmm) (tree tree' : Tree) (f i u n : ℕ) : Type 0 where
  pub grown : Grown s t tree tree'
  pub linked : Linked (entry t.mem (f * 4096) i) u n
  pub below : tree'.level n + 1 ≡ tree.level f
  pub cost : t.pmm.used_frames ≤ s.pmm.used_frames + 1
  pub owned : tree'.owner n ≡ f * 512 + i

pub Kept-same : (e e' : ℕ) → e' ≡ e → e % 2 ≡ 1 → Kept e e'
Kept-same e e' q on = record {
  present = rw q on;
  huge = rw q refl;
  user = rw q (omega arith);
  frame = rw q refl;
}

pub Kept-trans : {e e' e'' : ℕ} → Kept e e' → Kept e' e'' → Kept e e''
Kept-trans k l = record {
  present = l.present;
  huge = l.huge ∙ k.huge;
  user = (let a = k.user in let b = l.user in omega arith);
  frame = l.frame ∙ k.frame;
}

pub Linked-Kept : {e e' u n : ℕ} → Linked e u n → Kept e e' → Linked e' u n
Linked-Kept l k = record {
  present = k.present;
  huge = k.huge ∙ l.huge;
  user = (let a = k.user in let b = l.user in omega arith);
  frame = k.frame ∙ l.frame;
}

pub Grown-trans :
    {s t v : Vmm} {a b c : Tree} → IsTables s a → Grown s t a b → Grown t v b c → Grown s v a c
Grown-trans w p q = record {
  tables = q.tables;
  levels = λ g u. q.levels g (p.still g u) ∙ p.levels g u;
  owners = λ g u. q.owners g (p.still g u) ∙ p.owners g u;
  still = λ g u. q.still g (p.still g u);
  kept = λ g j lg lj on.
      let k = p.kept g j lg lj on in
      let m = p.levels g (w.taken g lg) in Kept-trans k (q.kept g j (omega arith) lj k.present);
  others = λ x u z. q.others x (p.still _ u) (p.levels _ u ∙ z) ∙ p.others x u z;
  total = q.total ∙ p.total;
  kernel = q.kernel ∙ p.kernel;
}
