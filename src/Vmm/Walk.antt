-- ===== src/Vmm/Walk.antt =====
-- What page tables mean: the walk of the processor from a root down to a page of 4 KiB, described
-- apart from the code of kernel/vmm.cpp.
use mathlib.Core.Option.{some-injective}
use hrafn_os.Pmm.{Memory}
use hrafn_os.Vmm.{entry, pml4_index, pdpt_index, pd_index, pt_index}
use hrafn_os.Vmm.Tree.{Linked}
use hrafn_os.Prelude.{
  ◌>>=◌, bind-some, ℕ, ◌+◌, ◌*◌, ◌/◌, ◌%◌, ◌≤◌, ◌≡◌, ◌&&◌, inl, inr, Option, none, some, arith, leb,
  ◌==◌, Bool-cases, if◌then◌else◌,
}

-- The frame that a present entry gives access to, for users too where `u` is 1.
unfoldable pub page_of : ℕ → ℕ → Option ℕ
page_of e u = if (e % 2 == 1) && leb u (e / 4 % 2) then some (e / 4096) else none

-- The same of an entry that leads to a table: a huge page is none.
unfoldable pub table_of : ℕ → ℕ → Option ℕ
table_of e u = if e / 128 % 2 == 0 then page_of e u else none

-- The physical address behind `v`, 48 bits of which count.
unfoldable pub translate : Memory → ℕ → ℕ → ℕ → Option ℕ
translate m u r v = do
  n3 ← table_of (entry m (r * 4096) (pml4_index v)) u
  n2 ← table_of (entry m (n3 * 4096) (pdpt_index v)) u
  n1 ← table_of (entry m (n2 * 4096) (pd_index v)) u
  p ← page_of (entry m (n1 * 4096) (pt_index v)) u
  some (p * 4096 + v % 4096)

pub table_of-Linked : (e u n : ℕ) → Linked e u n → table_of e u ≡ some n
unfolding table_of page_of
table_of-Linked e u n l = ground (arith, l.present, l.huge, l.user, l.frame)

page_of-some : (e u n : ℕ) → page_of e u ≡ some n → (e % 2 ≡ 1) × (u ≤ e / 4 % 2) × (e / 4096 ≡ n)
unfolding page_of
page_of-some e u n h = ground arith

pub Linked-of_table : (e u n : ℕ) → table_of e u ≡ some n → Linked e u n
unfolding table_of page_of
Linked-of_table e u n h = elim (Bool-cases (e / 128 % 2 == 0)) [
  | inl b ↦
      let (on, user, f) = page_of-some e u n (let q = h in ground arith) in
      record { present = on; huge = ground arith; user = user; frame = f }
  | inr b ↦ absurd (ground arith)
]

-- A walk that arrives at the table in frame `n1`, by the tables in `n3` and `n2`.
pub record Walk (m : Memory) (u r v n3 n2 n1 : ℕ) : Type 0 where
  pub first : Linked (entry m (r * 4096) (pml4_index v)) u n3
  pub second : Linked (entry m (n3 * 4096) (pdpt_index v)) u n2
  pub third : Linked (entry m (n2 * 4096) (pd_index v)) u n1

pub translate-Walk :
    (m : Memory) (u r v n3 n2 n1 e p : ℕ)
    → Walk m u r v n3 n2 n1
    → entry m (n1 * 4096) (pt_index v) ≡ e
    → e % 2 ≡ 1
    → u ≤ e / 4 % 2
    → e / 4096 ≡ p
    → translate m u r v ≡ some (p * 4096 + v % 4096)
unfolding translate page_of
translate-Walk m u r v n3 n2 n1 e p w q on user f =
    rw
      (
        table_of-Linked _ u n3 w.first,
        table_of-Linked _ u n2 w.second,
        table_of-Linked _ u n1 w.third,
        q,
      )
      (ground arith)

-- A translated address has a walk, and its last entry is present.
pub Walk-of_translate :
    (m : Memory) (u r v x : ℕ)
    → translate m u r v ≡ some x
    → (n3 : ℕ) × (n2 : ℕ) × (n1 : ℕ) × Walk m u r v n3 n2 n1
      × (entry m (n1 * 4096) (pt_index v) % 2 ≡ 1)
      × (u ≤ entry m (n1 * 4096) (pt_index v) / 4 % 2)
      × (entry m (n1 * 4096) (pt_index v) / 4096 * 4096 + v % 4096 ≡ x)
unfolding translate
Walk-of_translate m u r v x h =
    let (n3, q3, h3) = bind-some _ _ x h in
    let (n2, q2, h2) = bind-some _ _ x h3 in
    let (n1, q1, h1) = bind-some _ _ x h2 in
    let (p, q, h0) = bind-some _ _ x h1 in
    let (on, user, f) = page_of-some _ u p q in
    (
      n3,
      n2,
      n1,
      record {
        first = Linked-of_table _ u n3 q3;
        second = Linked-of_table _ u n2 q2;
        third = Linked-of_table _ u n1 q1;
      },
      on,
      user,
      rw f (some-injective _ _ h0),
    )
