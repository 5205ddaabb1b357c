-- ===== src/Tests/Space.antt =====
-- kernel/vmm.cpp at concrete inputs.
use hrafn_os.Elf.{Phdr, load_pages}
use hrafn_os.Elf.Load.{Loaded, load_pages-Loaded}
use hrafn_os.Bitmap.{bitmap_test}
use hrafn_os.Pmm.{Pmm, read64, read32}
use hrafn_os.Pmm.Count.{count_below}
use hrafn_os.Pmm.Marks.{used}
use hrafn_os.Pmm.Marks
use hrafn_os.Vmm.{Vmm, map_in, create_address_space, destroy_address_space}
use hrafn_os.Vmm.Tree.{Tree, IsTables}
use hrafn_os.Vmm.Map.{Mapped, map_in-Mapped}
use hrafn_os.Vmm.Create.{Created, create_address_space-Created}
use hrafn_os.Vmm.Free.{Freed, in_space, destroy_address_space-Freed}
use hrafn_os.Prelude.{
  ℕ, zero, suc, ◌+◌, ◌*◌, ◌%◌, ◌<◌, ◌≡◌, ◌≢◌, refl, [], ◌∷◌, arith, ◌==◌, if◌then◌else◌, get_or,
}

-- Sixteen frames, of which 0 and 1 are used; the kernel's root, all of it empty, is in frame 1.
abbrev sixteen_frames : Pmm
sixteen_frames = record { bitmap = 3 ∷ 0 ∷ []; total_frames = 16; used_frames = 2 }

abbrev empty_space : Vmm
empty_space = record { mem = λ a. 0; pmm = sixteen_frames; kernel_pml4 = 4096 }

abbrev one_root : Tree
one_root = record { level = λ f. if f == 1 then 4 else 0; owner = λ f. 0 }

sixteen_frames-IsValid : Marks.IsValid sixteen_frames
unfolding count_below bitmap_test
sixteen_frames-IsValid = record {
  bytes = bytes;
  room = omega arith;
  small = omega arith;
  counted = refl;
}
  where
    bytes : (i : ℕ) → get_or (3 ∷ 0 ∷ []) i 0 < 256
    bytes zero = omega arith
    bytes (suc zero) = omega arith
    bytes (suc (suc i)) = omega arith

empty_space-IsTables : IsTables empty_space one_root
unfolding bitmap_test read64 read32
empty_space-IsTables = record {
  bytes = λ a. omega arith;
  frames = sixteen_frames-IsValid;
  taken = λ f l. (let q : f ≡ 1 = ground arith in rw q refl);
  leads = λ f i l top li on. absurd (empty_entry (f * 4096 + 8 * i) on);
}
  where
    empty_entry : (a : ℕ) → read64 (λ a. 0) a % 2 ≢ 1
    empty_entry a e = omega arith

map_in-Mapped_example :
    (tree : Tree) × Mapped empty_space
      (map_in 4096 0x8000001000 0x7000 7 empty_space)
      one_root
      tree
      1
      0x8000001000
      7
      1
map_in-Mapped_example =
    map_in-Mapped 1 0x8000001000 0x7000 7 empty_space one_root empty_space-IsTables refl
      (omega arith) (omega arith) (omega arith) (omega arith)

create_address_space-Created_example :
    (n : ℕ) × (tree : Tree) × ((create_address_space empty_space).0 ≡ n * 4096)
    × Created empty_space (create_address_space empty_space).1 one_root tree n
create_address_space-Created_example =
    create_address_space-Created empty_space one_root 1 empty_space-IsTables refl
      (empty_space-IsTables.taken 1 (omega arith)) (omega arith)

destroy_address_space-Freed_example :
    Freed empty_space (destroy_address_space 8192 empty_space) (in_space empty_space.mem 8192)
destroy_address_space-Freed_example =
    destroy_address_space-Freed 8192 empty_space sixteen_frames-IsValid (λ e. omega arith)
      (λ e. omega arith)

-- Two pages of a segment.
abbrev two_pages : Phdr
two_pages = record {
  p_type = 1;
  p_offset = 64;
  p_vaddr = 0x8000001000;
  p_filesz = 9;
  p_memsz = 0x1800;
}

load_pages-Loaded_example :
    (tree : Tree) × Loaded empty_space
      (load_pages 2 0 two_pages 4096 0x8000001000 empty_space)
      tree
      1
      0x8000001000
      2
load_pages-Loaded_example =
    load_pages-Loaded 2 0 two_pages 1 0x8000001000 empty_space one_root empty_space-IsTables refl
      refl (omega arith) (omega arith) (omega arith)
