-- ===== src/Fb.antt =====
-- kernel/fb.cpp: the frame buffer that the boot loader set up. Its pixels are memory at the address
-- `g_fb`, 4 bytes each, `g_pitch` bytes to a line. The messages on the serial line are left out. Counted
-- loops recur on the rounds left; the walk over the boot tags takes fuel.
pub mod Scroll
use hrafn_os.Words.{u32, align_down}
use hrafn_os.Memory.{write32, write64}
use hrafn_os.Pmm.{Memory, read32, read64}
use hrafn_os.Vmm.{Vmm, map_page, page_present, page_writable}
use hrafn_os.Prelude.{
  ◌>>=◌, ℕ, zero, suc, ◌+◌, ◌-◌, ◌*◌, ◌/◌, Bool, true, false, not, ◌||◌, Option, none, some, bit_or,
  leb, ◌==◌, if◌then◌else◌,
}

pub record Fb : Type 0 where
  pub g_fb : ℕ
  pub g_pitch : ℕ
  pub g_width : ℕ
  pub g_height : ℕ
  pub g_bpp : ℕ

-- `mb_fb_tag`
pub record FbTag : Type 0 where
  pub addr : ℕ
  pub pitch : ℕ
  pub width : ℕ
  pub height : ℕ
  pub bpp : ℕ

pub tag_at : Memory → ℕ → FbTag
tag_at m t = record {
  addr = read64 m (t + 8);
  pitch = read32 m (t + 16);
  width = read32 m (t + 20);
  height = read32 m (t + 24);
  bpp = m (t + 28);
}

-- the walk over the tags: out of fuel, or the address of the tag, if there is one
pub find_fb_tag_from : ℕ → Memory → ℕ → Option (Option ℕ)
find_fb_tag_from zero m tag = none
find_fb_tag_from (suc fuel) m tag =
    let rest = find_fb_tag_from fuel m (tag + align_down (u32 (read32 m (tag + 4) + 7)) 3) in
    if read32 m tag == 0 then some none else if read32 m tag == 8 then some (some tag) else rest

-- the loop that maps the frame buffer's pages where they are, from page `i` on with `n` left
pub map_identity : ℕ → ℕ → ℕ → Vmm → Vmm
map_identity zero i base s = s
map_identity (suc n) i base s =
    let a = base + i * 0x1000 in
    map_identity n (i + 1) base (map_page a a (bit_or page_present page_writable) s)

-- `fb_init`; `none` is out of fuel
pub fb_init : ℕ → ℕ → Fb → Vmm → Option (Bool × Fb × Vmm)
fb_init fuel mb_info_addr fb s = find_fb_tag_from fuel s.mem (mb_info_addr + 8) >>= λ found.
    some (elim found [
      | none ↦ (false, fb, s)
      | some t ↦
          let tag = tag_at s.mem t in
          let sized = record fb {
            g_pitch = tag.pitch;
            g_width = tag.width;
            g_height = tag.height;
            g_bpp = tag.bpp;
          } in
          let pages = (tag.pitch * tag.height + 0xFFF) / 0x1000 in
          if not (tag.bpp == 32) then (false, sized, s) else (
            true,
            record sized { g_fb = tag.addr },
            map_identity pages 0 (align_down tag.addr 12) s,
          )
    ])

-- `for (; x < g_width; x++) row[x] = color`, with `n` pixels left
unfoldable pub fill_line : ℕ → ℕ → ℕ → ℕ → Memory → Memory
fill_line zero x row color m = m
fill_line (suc n) x row color m = fill_line n (x + 1) row color (write32 m (row + 4 * x) color)

-- the loop over the lines from `y` on, with `n` left
unfoldable pub fill_lines : ℕ → ℕ → Fb → ℕ → Memory → Memory
fill_lines zero y fb color m = m
fill_lines (suc n) y fb color m =
    fill_lines n (y + 1) fb color (fill_line fb.g_width 0 (fb.g_fb + y * fb.g_pitch) color m)

unfoldable pub fb_fill : ℕ → Fb → Memory → Memory
fb_fill color fb m = if fb.g_fb == 0 then m else fill_lines fb.g_height 0 fb color m

pub fb_putpixel : ℕ → ℕ → ℕ → Fb → Memory → Memory
fb_putpixel x y color fb m =
    if (fb.g_fb == 0) || (leb fb.g_width x || leb fb.g_height y)
    then m
    else write32 m (fb.g_fb + y * fb.g_pitch + x * 4) color

-- `for (; i < words; i++) dst[i] = src[i]`, with `n` words left
unfoldable pub move_words : ℕ → ℕ → ℕ → ℕ → Memory → Memory
move_words zero i dst src m = m
move_words (suc n) i dst src m =
    move_words n (i + 1) dst src (write64 m (dst + 8 * i) (read64 m (src + 8 * i)))

unfoldable pub fb_scroll_up : ℕ → ℕ → Fb → Memory → Memory
fb_scroll_up lines color fb m =
    let shift = lines * fb.g_pitch in
    let total = fb.g_height * fb.g_pitch in
    let moved = move_words ((total - shift) / 8) 0 fb.g_fb (fb.g_fb + shift) m in
    if (fb.g_fb == 0) || (lines == 0)
    then m
    else if leb fb.g_height lines
    then fb_fill color fb m
    else fill_lines lines (fb.g_height - lines) fb color moved
