-- ===== src/Elf/Load.antt =====
-- The pages of a segment in kernel/elf.cpp: each is mapped for users.
use hrafn_os.Memory.{write8, write8-bytes}
use hrafn_os.Pmm.{Memory, alloc_frame}
use hrafn_os.Vmm.{Vmm, map_in, map_page_in}
use hrafn_os.Vmm.Tree.{Tree, IsTables}
use hrafn_os.Vmm.Step.{alloc_frame-Handed}
use hrafn_os.Vmm.Walk.{translate}
use hrafn_os.Vmm.Map.{map_in-Mapped}
use hrafn_os.Elf.{Phdr, in_file, zero_bytes, file_bytes, fill_page, load_pages, user_flags}
use hrafn_os.Elf.Page.{zero_bytes-outside, file_bytes-outside}
use hrafn_os.Elf.Fresh.{filled-IsTables, filled-translate}
use hrafn_os.Prelude.{
  ℕ, zero, suc, ◌+◌, ◌-◌, ◌*◌, ◌/◌, ◌%◌, ◌^◌, ◌≤◌, ◌<◌, ◌≡◌, ◌≢◌, ◌∙◌, Bool, true, false, inl, inr,
  ◌⊎◌, some, arith, ltb, Bool-cases, if◌then◌else◌,
}

zero_bytes-lt :
    (n b frame : ℕ) (m : Memory) → ((x : ℕ) → m x < 256) → (x : ℕ) → zero_bytes n b frame m x < 256
unfolding zero_bytes
zero_bytes-lt zero b frame m h x = h x
zero_bytes-lt (suc n) b frame m h x =
    zero_bytes-lt n (b + 1) frame _ (write8-bytes m (frame + b) 0 h) x

file_bytes-lt :
    (n off elf : ℕ) (p : Phdr) (va frame : ℕ) (m : Memory)
    → ((x : ℕ) → m x < 256)
    → (x : ℕ) → file_bytes n off elf p va frame m x < 256
unfolding file_bytes
file_bytes-lt zero off elf p va frame m h x = h x
file_bytes-lt (suc n) off elf p va frame m h x =
    file_bytes-lt n (off + 1) elf p va frame _ (one (in_file p (va + off))) x
  where
    one :
        (b : Bool) (x : ℕ)
        → (if b
              then write8 m (frame + off) (m (elf + (p.p_offset + (va + off - p.p_vaddr))))
              else m)
            x
          < 256
    one true x = write8-bytes m (frame + off) _ h x
    one false x = h x

fill_page-lt :
    (elf : ℕ) (p : Phdr) (va frame : ℕ) (m : Memory)
    → ((x : ℕ) → m x < 256)
    → (x : ℕ) → fill_page elf p va frame m x < 256
unfolding fill_page
fill_page-lt elf p va frame m h x =
    file_bytes-lt 4096 0 elf p va frame _ (zero_bytes-lt 4096 0 frame m h) x

fill_page-outside :
    (elf : ℕ) (p : Phdr) (va n : ℕ) (m : Memory) (a : ℕ)
    → a / 4096 ≢ n
    → fill_page elf p va (n * 4096) m a ≡ m a
unfolding fill_page
fill_page-outside elf p va n m a ne =
    file_bytes-outside 4096 0 elf p va (n * 4096) _ a (omega arith)
    ∙ zero_bytes-outside 4096 0 (n * 4096) m a (omega arith)

-- After the `n` pages from `va` on are loaded in root `r`.
pub record Loaded (s t : Vmm) (tree' : Tree) (r va n : ℕ) : Type 0 where
  pub tables : IsTables t tree'
  pub root : tree'.level r ≡ 4
  pub there :
      (v : ℕ)
      → va ≤ v
      → v < va + n * 4096
      → (f : ℕ) × (translate t.mem 1 r v ≡ some (f * 4096 + v % 4096))
  pub elsewhere :
      (u v x : ℕ)
      → 2 ^ 39 ≤ v
      → v < 2 ^ 48
      → (v < va) ⊎ (va + n * 4096 ≤ v)
      → translate s.mem u r v ≡ some x
      → translate t.mem u r v ≡ some x

-- On well-formed page tables, for `n` whole pages from `va` on inside the user part of the address space
-- and with four frames to spare for each: the loop over the pages of a segment keeps the tables
-- well-formed, users reach every address of the pages, and any other address of that part of this space
-- that was translated still is, to the same.
pub load_pages-Loaded :
    (n elf : ℕ) (p : Phdr) (r va : ℕ) (s : Vmm) (tree : Tree)
    → IsTables s tree
    → tree.level r ≡ 4
    → va % 4096 ≡ 0
    → 2 ^ 39 ≤ va
    → va + n * 4096 ≤ 2 ^ 48
    → s.pmm.used_frames + 4 * n ≤ s.pmm.total_frames
    → (tree' : Tree) × Loaded s (load_pages n elf p (r * 4096) va s) tree' r va n
unfolding load_pages map_page_in
load_pages-Loaded zero elf p r va s tree w root al lo hi room = (
  tree,
  record {
    tables = w;
    root = root;
    there = λ v a b. absurd (omega arith);
    elsewhere = λ u v x a b out e. e;
  },
)
load_pages-Loaded (suc n) elf p r va s tree w root al lo hi room =
    let (f, q, h) = alloc_frame-Handed s.pmm w.frames (omega arith) in
    let pmm1 = (alloc_frame s.pmm).1 in
    let m1 = fill_page elf p va (f * 4096) s.mem in
    let s1 = record s { mem = m1; pmm = pmm1 } in
    let bytes = fill_page-lt elf p va (f * 4096) s.mem w.bytes in
    let out1 = fill_page-outside elf p va f s.mem in
    let w1 = filled-IsTables s tree w pmm1 f h m1 bytes out1 in
    let count = h.count in
    let total = h.total in
    let small = w.frames.small in
    let managed = h.managed in
    let (tree2, mp) =
      map_in-Mapped r va (f * 4096) user_flags s1 tree w1 root (omega arith) (omega arith)
        (omega arith) (omega arith) in
    let s2 = map_in (r * 4096) va (f * 4096) user_flags s1 in
    let cost = mp.cost in
    let total2 = mp.total in
    let (tree3, rest) =
      load_pages-Loaded n elf p r (va + 0x1000) s2 tree2 mp.tables (mp.roots r root) (omega arith)
        (omega arith) (omega arith) (omega arith) in
    rw q (
      tree3,
      record {
        tables = rest.tables;
        root = rest.root;
        there = λ v a b. elim (Bool-cases (ltb v (va + 4096))) [
          | inl e ↦ (
            f * 4096 / 4096,
            rest.elsewhere 1 v _ (omega arith) (omega arith) (inl (ground arith))
                (mp.there v (ground arith)),
          )
          | inr e ↦ rest.there v (ground arith) (omega arith)
        ];
        elsewhere = λ u v x a b out e. rest.elsewhere u v x a b (omega arith) (
            mp.elsewhere r v u x root (omega arith) (inr (λ k. omega arith))
              (filled-translate s tree w pmm1 f h m1 bytes out1 u r v x root (omega arith) e));
      },
    )
