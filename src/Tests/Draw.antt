-- ===== src/Tests/Draw.antt =====
-- kernel/gfx.cpp and kernel/elf.cpp at concrete inputs.
use hrafn_os.Pmm.{read32}
use hrafn_os.Fb.{Fb, fb_scroll_up}
use hrafn_os.Fb.Scroll.{fb_scroll_up-moves}
use hrafn_os.Prelude.Int.{pos, negsuc, wrap, ◌+ℤ◌, ◌-ℤ◌}
use hrafn_os.Gfx.{Surface, fill_rect, putpixel, line}
use hrafn_os.Gfx.Rect.{between, fill_rect-pixels}
use hrafn_os.Gfx.Line.{line-ends}
use hrafn_os.Elf.{Phdr, in_file, fill_page}
use hrafn_os.Elf.Page.{FileApart, fill_page-bytes}
use hrafn_os.Prelude.{
  refl, ◌%◌, ◌≤◌, ◌<◌, ℕ, ◌+◌, ◌≤◌, ◌<◌, ◌≡◌, inl, ◌⊎◌, some, arith, if◌then◌else◌, ◌*◌,
}

-- Four pixels by three, in rows of five.
abbrev small_surface : Surface
small_surface = record { pixels = λ a. 0; width = 4; height = 3; pitch = 5 }

fill_rect-pixels_example :
    (fill_rect (negsuc 1) (pos 1) (pos 4) (pos 9) 7 small_surface).pixels 6 ≡ 7
unfolding between ◌+ℤ◌
fill_rect-pixels_example =
    fill_rect-pixels (negsuc 1) (pos 1) (pos 4) (pos 9) 7 small_surface 1 1
      (omega arith, omega arith) (omega arith, omega arith) (omega arith) (omega arith)
      (omega arith) (omega arith)

line-ends_example :
    (u : Surface) × (line 9 (pos 3) (pos 0) (negsuc 0) (pos 2) 7 small_surface
      ≡ some (putpixel (negsuc 0) (pos 2) 7 u))
unfolding ◌-ℤ◌ wrap
line-ends_example =
    line-ends 9 (pos 3) (pos 0) (negsuc 0) (pos 2) 7 small_surface (omega arith, omega arith)
      (omega arith, omega arith) (omega arith, omega arith) (omega arith, omega arith)
      (omega arith, omega arith) (omega arith, omega arith) (omega arith)

-- Three bytes of the file for address 0x1001 on, in a segment of sixteen.
abbrev a_segment : Phdr
a_segment = record { p_type = 1; p_offset = 100; p_vaddr = 0x1001; p_filesz = 3; p_memsz = 16 }

image_apart : FileApart 0x2000 a_segment 0x1000 0x5000
image_apart off l h = inl (ground arith)

fill_page-bytes_example :
    ((k : ℕ)
      → k < 4096
      → fill_page 0x2000 a_segment 0x1000 0x5000 (λ a. 9) (0x5000 + k)
        ≡ (if in_file a_segment (0x1000 + k) then 9 else 0))
    × ((x : ℕ)
        → (x < 0x5000) ⊎ (0x5000 + 4096 ≤ x)
        → fill_page 0x2000 a_segment 0x1000 0x5000 (λ a. 9) x ≡ 9)
fill_page-bytes_example =
    fill_page-bytes 0x2000 a_segment 0x1000 0x5000 (λ a. 9) (λ x. omega arith) image_apart

-- Four lines of four pixels at address 4096.
abbrev a_screen : Fb
a_screen = record { g_fb = 4096; g_pitch = 16; g_width = 4; g_height = 4; g_bpp = 32 }

fb_scroll_up-moves_example :
    ((x : ℕ) → x < 48 → fb_scroll_up 1 7 a_screen (λ a. a % 256) (4096 + x) ≡ (4112 + x) % 256)
    × ((py px : ℕ)
        → 3 ≤ py
        → py < 4
        → px < 4
        → read32 (fb_scroll_up 1 7 a_screen (λ a. a % 256)) (4096 + py * 16 + 4 * px) ≡ 7)
fb_scroll_up-moves_example =
    fb_scroll_up-moves 1 7 a_screen (λ a. a % 256) (λ e. omega arith) (λ e. omega arith)
      (omega arith) (λ a. omega arith) (omega arith) refl (omega arith) (omega arith)
