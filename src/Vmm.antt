-- ===== src/Vmm.antt =====
-- kernel/vmm.cpp: page tables of four levels, kept in frames of physical memory that the kernel
-- reads and writes at their own addresses. `kernel_pml4` is the static variable. Loading CR3
-- and flushing the TLB have no effect on this state. A table is its address; entry `i` is
-- the word at `t + 8 * i`. A loop recurs on the rounds left.
pub mod Entry
pub mod Tree
pub mod Fresh
pub mod Present
pub mod Step
pub mod Chain
pub mod Create
pub mod Free
pub mod Map
pub mod Walk
use hrafn_os.Words.{align_down}
use hrafn_os.Memory.{write8, write64}
use hrafn_os.Pmm.{Pmm, Memory, read64, alloc_frame, free_frame}
use hrafn_os.Prelude.{
  ℕ, zero, suc, ◌+◌, ◌-◌, ◌*◌, ◌/◌, ◌%◌, ◌^◌, Bool, not, ◌||◌, bit_and, bit_or, ◌==◌, if◌then◌else◌,
}

pub record Vmm : Type 0 where
  pub mem : Memory
  pub pmm : Pmm
  pub kernel_pml4 : ℕ

abbrev pub page_present : ℕ
page_present = 1

abbrev pub page_writable : ℕ
page_writable = 2

abbrev pub page_user : ℕ
page_user = 4

abbrev pub huge_page : ℕ
huge_page = 128

abbrev pub entries : ℕ
entries = 512

-- `e & ADDR_MASK`
abbrev pub address : ℕ → ℕ
address e = align_down e 12

-- `(v >> 39) & 0x1FF`
abbrev pub pml4_index : ℕ → ℕ
pml4_index v = v / 2 ^ 39 % 512

abbrev pub pdpt_index : ℕ → ℕ
pdpt_index v = v / 2 ^ 30 % 512

abbrev pub pd_index : ℕ → ℕ
pd_index v = v / 2 ^ 21 % 512

abbrev pub pt_index : ℕ → ℕ
pt_index v = v / 2 ^ 12 % 512

-- `t[i]`
abbrev pub entry : Memory → ℕ → ℕ → ℕ
entry m t i = read64 m (t + 8 * i)

-- `t[i] = e`
abbrev pub set_entry : ℕ → ℕ → ℕ → Memory → Memory
set_entry t i e m = write64 m (t + 8 * i) e

abbrev pub is_present : ℕ → Bool
is_present e = not (bit_and e page_present == 0)

abbrev pub is_huge : ℕ → Bool
is_huge e = not (bit_and e huge_page == 0)

-- `for (i = 0; i < ENTRIES; i++) t[i] = 0`
unfoldable pub clear_entries : ℕ → ℕ → ℕ → Memory → Memory
clear_entries zero i t m = m
clear_entries (suc n) i t m = clear_entries n (i + 1) t (set_entry t i 0 m)

-- The address is not tested: with no frame left the table is at address 0.
unfoldable pub alloc_table : Vmm → ℕ × Vmm
alloc_table s =
    let (t, p) = alloc_frame s.pmm in
    (t, record s { mem = clear_entries entries 0 t s.mem; pmm = p })

-- `PAGE_PRESENT | PAGE_WRITABLE | (flags & PAGE_USER)`
abbrev pub want : ℕ → ℕ
want flags = bit_or (bit_or page_present page_writable) (bit_and flags page_user)

unfoldable pub next_table : ℕ → ℕ → ℕ → Vmm → ℕ × Vmm
next_table table index flags s =
    let made = alloc_table s in
    let e = bit_or (entry s.mem table index) (bit_and flags page_user) in
    if not (is_present (entry s.mem table index))
    then (
      made.0,
      record made.1 { mem = set_entry table index (bit_or made.0 (want flags)) made.1.mem },
    )
    else (address e, record s { mem = set_entry table index e s.mem })

unfoldable pub map_in : ℕ → ℕ → ℕ → ℕ → Vmm → Vmm
map_in root virt phys flags s =
    let (pdpt, s1) = next_table root (pml4_index virt) flags s in
    let (pd, s2) = next_table pdpt (pdpt_index virt) flags s1 in
    let (pt, s3) = next_table pd (pd_index virt) flags s2 in
    record s3 {
      mem = set_entry pt (pt_index virt) (bit_or (bit_or (address phys) flags) page_present) s3.mem;
    }

pub map_page : ℕ → ℕ → ℕ → Vmm → Vmm
map_page virt phys flags s = map_in s.kernel_pml4 virt phys flags s

unfoldable pub map_page_in : ℕ → ℕ → ℕ → ℕ → Vmm → Vmm
map_page_in root virt phys flags s = map_in root virt phys flags s

unfoldable pub create_address_space : Vmm → ℕ × Vmm
create_address_space s =
    let (root, s1) = alloc_table s in
    (root, record s1 { mem = set_entry root 0 (entry s1.mem s1.kernel_pml4 0) s1.mem })

abbrev pub free_at : ℕ → Vmm → Vmm
free_at p s = record s { pmm = free_frame s.pmm p }

-- the loops of the three functions below, from entry `i` on with `n` entries left
unfoldable pub free_pt_from : ℕ → ℕ → ℕ → Vmm → Vmm
free_pt_from zero i pt s = s
free_pt_from (suc n) i pt s =
    let e = entry s.mem pt i in
    free_pt_from n (i + 1) pt (if is_present e then free_at (address e) s else s)

abbrev pub free_pt : ℕ → Vmm → Vmm
free_pt pt s = free_pt_from entries 0 pt s

unfoldable pub free_pd_from : ℕ → ℕ → ℕ → Vmm → Vmm
free_pd_from zero i pd s = s
free_pd_from (suc n) i pd s =
    let e = entry s.mem pd i in
    free_pd_from n (i + 1) pd
      (if not (is_present e) || is_huge e then s else free_at (address e) (free_pt (address e) s))

abbrev pub free_pd : ℕ → Vmm → Vmm
free_pd pd s = free_pd_from entries 0 pd s

unfoldable pub free_pdpt_from : ℕ → ℕ → ℕ → Vmm → Vmm
free_pdpt_from zero i pdpt s = s
free_pdpt_from (suc n) i pdpt s =
    let e = entry s.mem pdpt i in
    free_pdpt_from n (i + 1) pdpt
      (if not (is_present e) || is_huge e then s else free_at (address e) (free_pd (address e) s))

abbrev pub free_pdpt : ℕ → Vmm → Vmm
free_pdpt pdpt s = free_pdpt_from entries 0 pdpt s

unfoldable pub free_root_from : ℕ → ℕ → ℕ → Vmm → Vmm
free_root_from zero i root s = s
free_root_from (suc n) i root s =
    let e = entry s.mem root i in
    free_root_from n (i + 1) root
      (if not (is_present e) then s else free_at (address e) (free_pdpt (address e) s))

unfoldable pub destroy_address_space : ℕ → Vmm → Vmm
destroy_address_space root s =
    if (root == 0) || (root == s.kernel_pml4)
    then s
    else free_at root (free_root_from (entries - 1) 1 root s)

-- `for (b = 0; b < 4096; b++) dst[b] = src[b]`
unfoldable pub copy_bytes : ℕ → ℕ → ℕ → ℕ → Memory → Memory
copy_bytes zero b dst src m = m
copy_bytes (suc n) b dst src m = copy_bytes n (b + 1) dst src (write8 m (dst + b) (m (src + b)))

-- `e & 0xFFF`
abbrev pub low_flags : ℕ → ℕ
low_flags e = bit_and e 0xFFF

-- the body of the innermost loop of the cloning, for the present entry `e`
pub clone_page : ℕ → ℕ → ℕ → Vmm → Vmm
clone_page dst vaddr e s =
    let (dframe, p) = alloc_frame s.pmm in
    map_page_in dst vaddr dframe (low_flags e)
      (record s { mem = copy_bytes 4096 0 dframe (address e) s.mem; pmm = p })

-- the four loops; `base` is the part of `vaddr` that the outer loops give
pub clone_pt_from : ℕ → ℕ → ℕ → ℕ → ℕ → Vmm → Vmm
clone_pt_from zero l spt dst base s = s
clone_pt_from (suc n) l spt dst base s =
    let e = entry s.mem spt l in
    clone_pt_from n (l + 1) spt dst base
      (if not (is_present e) then s else clone_page dst (bit_or base (l * 2 ^ 12)) e s)

pub clone_pd_from : ℕ → ℕ → ℕ → ℕ → ℕ → Vmm → Vmm
clone_pd_from zero k spd dst base s = s
clone_pd_from (suc n) k spd dst base s =
    let e = entry s.mem spd k in
    clone_pd_from n (k + 1) spd dst base (
      if not (is_present e) || is_huge e
      then s
      else clone_pt_from entries 0 (address e) dst (bit_or base (k * 2 ^ 21)) s)

pub clone_pdpt_from : ℕ → ℕ → ℕ → ℕ → ℕ → Vmm → Vmm
clone_pdpt_from zero j spdpt dst base s = s
clone_pdpt_from (suc n) j spdpt dst base s =
    let e = entry s.mem spdpt j in
    clone_pdpt_from n (j + 1) spdpt dst base (
      if not (is_present e) || is_huge e
      then s
      else clone_pd_from entries 0 (address e) dst (bit_or base (j * 2 ^ 30)) s)

pub clone_root_from : ℕ → ℕ → ℕ → ℕ → Vmm → Vmm
clone_root_from zero i src dst s = s
clone_root_from (suc n) i src dst s =
    let e = entry s.mem src i in
    clone_root_from n (i + 1) src dst
      (if not (is_present e) then s else clone_pdpt_from entries 0 (address e) dst (i * 2 ^ 39) s)

pub clone_address_space : ℕ → Vmm → ℕ × Vmm
clone_address_space src s =
    let (dst, s1) = create_address_space s in (dst, clone_root_from (entries - 1) 1 src dst s1)

abbrev or_3 : ℕ → ℕ → ℕ → ℕ
or_3 a b c = bit_or (bit_or a b) c

-- `for (i = 0; i < ENTRIES; i++) pd[i] = …`, the 2 MiB pages of the first GiB
pub identity_pages : ℕ → ℕ → ℕ → Memory → Memory
identity_pages zero i pd m = m
identity_pages (suc n) i pd m =
    identity_pages n (i + 1) pd
      (set_entry pd i (bit_or (or_3 (i * 0x200000) page_present page_writable) huge_page) m)

pub init : Vmm → Vmm
init s =
    let (root, s1) = alloc_table s in
    let (pdpt, s2) = alloc_table s1 in
    let (pd, s3) = alloc_table s2 in
    let m1 = set_entry root 0 (or_3 pdpt page_present page_writable) s3.mem in
    let m2 = set_entry pdpt 0 (or_3 pd page_present page_writable) m1 in
    record s3 { mem = identity_pages entries 0 pd m2; kernel_pml4 = root }
