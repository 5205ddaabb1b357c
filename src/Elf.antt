-- ===== src/Elf.antt =====
-- kernel/elf.cpp: a 64-bit ELF image in memory becomes an address space. The image is taken to lie
-- apart from the frames that are handed out, so its headers are read before the loops that they
-- control. A message on the serial line has no effect on this state. A loop recurs on the rounds left.
pub mod Page
pub mod Fresh
pub mod Load
use hrafn_os.Words.{u64, align_down}
use hrafn_os.Memory.{write8}
use hrafn_os.Pmm.{Memory, read32, read64, alloc_frame}
use hrafn_os.Vmm.{Vmm, create_address_space, map_page_in, page_present, page_writable, page_user}
use hrafn_os.Prelude.{
  ◌>>=◌, bind-some, ℕ, zero, suc, ◌+◌, ◌-◌, ◌*◌, ◌/◌, ◌%◌, ◌^◌, ◌≤◌, ◌<◌, min, max, ◌≡◌, ◌≢◌, refl,
  sym, ap, ◌∙◌, ◌↔◌, Bool, true, false, not, ◌&&◌, ◌||◌, inl, inr, ◌⊎◌, List, [], ◌∷◌, ◌++◌, map,
  Option, none, some, bit_and, bit_or, bit_xor, arith, ltb, leb, ◌==◌, ==_iff, ltb→lt, lt→ltb,
  leb→le, tests, Bool-cases, Option-cases, if◌then◌else◌, get_or, get_elem?, set, take, drop,
  replicate, length, length-set, length-append, length-map, length-take, length-drop,
  length-replicate, take-append-drop, get_elem?-set_self, get_elem?-set_ne, get_or-set_self,
  get_or-set_ne, get_or-beyond, set-beyond, get_or-replicate, get_or-append_left,
  get_or-append_self, get_or-drop_one, take-beyond,
}

-- `*(uint16_t*)a`
abbrev pub read16 : Memory → ℕ → ℕ
read16 m a = m a + 2 ^ 8 * m (a + 1)

-- the fields of `Elf64_Ehdr` that are read
pub record Ehdr : Type 0 where
  pub e_entry : ℕ
  pub e_phoff : ℕ
  pub e_phnum : ℕ

pub ehdr_at : Memory → ℕ → Ehdr
ehdr_at m elf = record {
  e_entry = read64 m (elf + 24);
  e_phoff = read64 m (elf + 32);
  e_phnum = read16 m (elf + 56);
}

-- the fields of `Elf64_Phdr` that are read
pub record Phdr : Type 0 where
  pub p_type : ℕ
  pub p_offset : ℕ
  pub p_vaddr : ℕ
  pub p_filesz : ℕ
  pub p_memsz : ℕ

abbrev pub phdr_bytes : ℕ
phdr_bytes = 56

pub phdr_at : Memory → ℕ → Phdr
phdr_at m p = record {
  p_type = read32 m p;
  p_offset = read64 m (p + 8);
  p_vaddr = read64 m (p + 16);
  p_filesz = read64 m (p + 32);
  p_memsz = read64 m (p + 40);
}

abbrev pub pt_load : ℕ
pt_load = 1

-- `for (b = 0; b < 4096; b++) frame[b] = 0`
unfoldable pub zero_bytes : ℕ → ℕ → ℕ → Memory → Memory
zero_bytes zero b frame m = m
zero_bytes (suc n) b frame m = zero_bytes n (b + 1) frame (write8 m (frame + b) 0)

-- `vaddr >= p->p_vaddr && vaddr < p->p_vaddr + p->p_filesz`
abbrev pub in_file : Phdr → ℕ → Bool
in_file p vaddr = leb p.p_vaddr vaddr && ltb vaddr (u64 (p.p_vaddr + p.p_filesz))

-- the loop over `off` that copies the file's bytes of one page
unfoldable pub file_bytes : ℕ → ℕ → ℕ → Phdr → ℕ → ℕ → Memory → Memory
file_bytes zero off elf p va frame m = m
file_bytes (suc n) off elf p va frame m = file_bytes n (off + 1) elf p va frame (
    if in_file p (va + off)
    then write8 m (frame + off) (m (elf + (p.p_offset + (va + off - p.p_vaddr))))
    else m)

-- the content of the page at `va`, in the frame
unfoldable pub fill_page : ℕ → Phdr → ℕ → ℕ → Memory → Memory
fill_page elf p va frame m = file_bytes 4096 0 elf p va frame (zero_bytes 4096 0 frame m)

abbrev pub user_flags : ℕ
user_flags = bit_or (bit_or page_present page_writable) page_user

-- `for (va = va_start; va < va_end; va += 0x1000)`
unfoldable pub load_pages : ℕ → ℕ → Phdr → ℕ → ℕ → Vmm → Vmm
load_pages zero elf p space va s = s
load_pages (suc n) elf p space va s =
    let (frame, pmm) = alloc_frame s.pmm in
    load_pages n elf p space (va + 0x1000) (
      map_page_in space va frame user_flags
        (record s { mem = fill_page elf p va frame s.mem; pmm = pmm }))

abbrev pub va_start : Phdr → ℕ
va_start p = align_down p.p_vaddr 12

abbrev pub va_end : Phdr → ℕ
va_end p = align_down (u64 (p.p_vaddr + p.p_memsz + 0xFFF)) 12

-- the body of the loop over the program headers
pub load_segment : ℕ → Phdr → ℕ → Vmm → Vmm
load_segment elf p space s =
    if not (p.p_type == pt_load)
    then s
    else load_pages ((va_end p - va_start p) / 0x1000) elf p space (va_start p) s

pub load_segments : ℕ → ℕ → ℕ → ℕ → ℕ → Vmm → Vmm
load_segments zero i elf phdr space s = s
load_segments (suc n) i elf phdr space s =
    load_segments n (i + 1) elf phdr space
      (load_segment elf (phdr_at s.mem (phdr + i * phdr_bytes)) space s)

-- the tests of `e_ident`
pub is_elf64 : Memory → ℕ → Bool
is_elf64 m elf =
    (m elf == 0x7F)
    && (m (elf + 1) == 69)
    && (m (elf + 2) == 76)
    && (m (elf + 3) == 70)
    && (m (elf + 4) == 2)

-- the address space and `*entry_out`; `none` is `nullptr`
pub elf_load : ℕ → Vmm → Option (ℕ × ℕ) × Vmm
elf_load elf s =
    let (space, s1) = create_address_space s in
    let eh = ehdr_at s1.mem elf in
    if not (is_elf64 s.mem elf)
    then (none, s)
    else (some (space, eh.e_entry), load_segments eh.e_phnum 0 elf (elf + eh.e_phoff) space s1)
