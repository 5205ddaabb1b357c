-- ===== src/Vmm/Chain.antt =====
-- Walks through well-formed page tables of kernel/vmm.cpp: what the levels and owners of their tables
-- say, and what stores and links keep of them.
use hrafn_os.Pmm.{Memory}
use hrafn_os.Vmm.{Vmm, entry, set_entry, pml4_index, pdpt_index, pd_index}
use hrafn_os.Vmm.Entry.{entry-set_entry_apart}
use hrafn_os.Vmm.Tree.{Tree, IsTables, Linked, Grown, Linked-Kept}
use hrafn_os.Vmm.Walk.{Walk}
use hrafn_os.Prelude.{ℕ, ◌+◌, ◌*◌, ◌/◌, ◌%◌, ◌^◌, ◌≤◌, ◌<◌, ◌≡◌, ap, inl, inr, ◌⊎◌, arith}

-- The tables of a walk have their levels, and owners that spell out the address.
pub record Chain (tree : Tree) (r v n3 n2 n1 : ℕ) : Type 0 where
  pub level3 : tree.level n3 ≡ 3
  pub level2 : tree.level n2 ≡ 2
  pub level1 : tree.level n1 ≡ 1
  pub owner3 : tree.owner n3 ≡ r * 512 + pml4_index v
  pub owner2 : tree.owner n2 ≡ n3 * 512 + pdpt_index v
  pub owner1 : tree.owner n1 ≡ n2 * 512 + pd_index v

leads_to :
    (s : Vmm) (tree : Tree) (f i u n : ℕ)
    → IsTables s tree
    → 2 ≤ tree.level f
    → (1 ≤ i) ⊎ (tree.level f < 4)
    → i < 512
    → Linked (entry s.mem (f * 4096) i) u n
    → (tree.level n + 1 ≡ tree.level f) × (tree.owner n ≡ f * 512 + i)
leads_to s tree f i u n w lf root li l =
    let (_, up, own) = w.leads f i lf root li l.present in (rw (← l.frame) up, rw (← l.frame) own)

pub walk-Chain :
    (s : Vmm) (tree : Tree) (u r v n3 n2 n1 : ℕ)
    → IsTables s tree
    → tree.level r ≡ 4
    → 1 ≤ pml4_index v
    → Walk s.mem u r v n3 n2 n1
    → Chain tree r v n3 n2 n1
walk-Chain s tree u r v n3 n2 n1 w root user k =
    let (a3, o3) =
      leads_to s tree r (pml4_index v) u n3 w (omega arith) (inl user) (omega arith) k.first in
    let (a2, o2) =
      leads_to s tree n3 (pdpt_index v) u n2 w (omega arith) (inr (omega arith)) (omega arith)
        k.second in
    let (a1, o1) =
      leads_to s tree n2 (pd_index v) u n1 w (omega arith) (inr (omega arith)) (omega arith)
        k.third in
    record {
      level3 = omega arith;
      level2 = omega arith;
      level1 = omega arith;
      owner3 = o3;
      owner2 = o2;
      owner1 = o1;
    }

-- The last table decides the root and all of the address but the last index.
pub Chain-unique :
    (tree : Tree) (r v n3 n2 r' v' n3' n2' n1 : ℕ)
    → Chain tree r v n3 n2 n1
    → Chain tree r' v' n3' n2' n1
    → (r ≡ r') × (v / 2 ^ 21 % 2 ^ 27 ≡ v' / 2 ^ 21 % 2 ^ 27)
Chain-unique tree r v n3 n2 r' v' n3' n2' n1 c d =
    let a = c.owner1 in
    let b = d.owner1 in
    let q2 : n2 ≡ n2' = omega arith in
    let e2 : pd_index v ≡ pd_index v' = omega arith in
    let a' = c.owner2 in
    let b' = d.owner2 in
    let o2 = ap tree.owner q2 in
    let q3 : n3 ≡ n3' = omega arith in
    let e3 : pdpt_index v ≡ pdpt_index v' = omega arith in
    let a'' = c.owner3 in
    let b'' = d.owner3 in
    let o3 = ap tree.owner q3 in
    let q4 : r ≡ r' = omega arith in
    let e4 : pml4_index v ≡ pml4_index v' = omega arith in (q4, omega arith)

pub walk-kept :
    (s t : Vmm) (tree tree' : Tree) (u r v n3 n2 n1 : ℕ)
    → tree.level r ≡ 4
    → Chain tree r v n3 n2 n1
    → Grown s t tree tree'
    → Walk s.mem u r v n3 n2 n1
    → Walk t.mem u r v n3 n2 n1
walk-kept s t tree tree' u r v n3 n2 n1 root c g k =
    let a3 = c.level3 in
    let a2 = c.level2 in
    record {
      first =
          Linked-Kept k.first (g.kept r (pml4_index v) (omega arith) (omega arith) k.first.present);
      second =
          Linked-Kept k.second
            (g.kept n3 (pdpt_index v) (omega arith) (omega arith) k.second.present);
      third =
          Linked-Kept k.third (g.kept n2 (pd_index v) (omega arith) (omega arith) k.third.present);
    }

-- A store in a table of pages leaves the walks alone.
pub walk-set_entry :
    (m : Memory) (tree : Tree) (u r v n3 n2 n1 n i e : ℕ)
    → tree.level r ≡ 4
    → Chain tree r v n3 n2 n1
    → tree.level n ≡ 1
    → i < 512
    → Walk m u r v n3 n2 n1
    → Walk (set_entry (n * 4096) i e m) u r v n3 n2 n1
walk-set_entry m tree u r v n3 n2 n1 n i e root c ln li k =
    let apart = λ (g j : ℕ) (lj : j < 512) (lg : 2 ≤ tree.level g).
      entry-set_entry_apart m n i e li g j lj (inl (λ q. let p = ap tree.level q in omega arith)) in
    let a3 = c.level3 in
    let a2 = c.level2 in
    record {
      first = rw (apart r (pml4_index v) (omega arith) (omega arith)) k.first;
      second = rw (apart n3 (pdpt_index v) (omega arith) (omega arith)) k.second;
      third = rw (apart n2 (pd_index v) (omega arith) (omega arith)) k.third;
    }
