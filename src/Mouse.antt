-- ===== src/Mouse.antt =====
-- kernel/mouse.cpp: the PS/2 packet machine of `mouse_irq`. The status byte and the data byte it reads
-- from the ports, and the screen's size, are arguments; an int is an integer without bound, far from
-- what a packet can move.
pub mod Bounds
use hrafn_os.Prelude.Int.{ℤ, pos, negsuc, ◌+ℤ◌, ◌-ℤ◌, ltb_ℤ}
use hrafn_os.Prelude.{
  ℕ, zero, suc, ◌+◌, ◌-◌, ◌*◌, ◌/◌, ◌%◌, ◌^◌, ◌≤◌, ◌<◌, min, max, ◌≡◌, ◌≢◌, refl, sym, ap, ◌∙◌, ◌↔◌,
  Bool, true, false, not, ◌&&◌, ◌||◌, inl, inr, ◌⊎◌, List, [], ◌∷◌, ◌++◌, map, Option, none, some,
  bit_and, bit_or, bit_xor, arith, ltb, leb, ◌==◌, ==_iff, ltb→lt, lt→ltb, leb→le, tests,
  Bool-cases, Option-cases, if◌then◌else◌, get_or, get_elem?, set, take, drop, replicate, length,
  length-set, length-append, length-map, length-take, length-drop, length-replicate,
  take-append-drop, get_elem?-set_self, get_elem?-set_ne, get_or-set_self, get_or-set_ne,
  get_or-beyond, set-beyond, get_or-replicate,
}

pub record Mouse : Type 0 where
  pub x : ℤ
  pub y : ℤ
  pub buttons : ℕ
  pub packet0 : ℕ
  pub packet1 : ℕ
  pub packet2 : ℕ
  pub phase : ℕ

-- the variables as `mouse_init` leaves them on a screen of `w` by `h`
abbrev pub init : ℕ → ℕ → Mouse → Mouse
init w h m = record m { x = pos (w / 2); y = pos (h / 2); phase = 0; buttons = 0 }

-- `int d = byte; if (f & sign) d -= 256`
unfoldable pub delta : ℕ → ℕ → ℕ → ℤ
delta f sign byte = if not (bit_and f sign == 0) then pos byte -ℤ pos 256 else pos byte

-- `if (v < 0) v = 0; if (v >= size) v = size - 1`
unfoldable pub clamp : ℕ → ℤ → ℤ
clamp size v =
    let v1 = if ltb_ℤ v (pos 0) then pos 0 else v in
    if not (ltb_ℤ v1 (pos size)) then pos size -ℤ pos 1 else v1

-- the third byte of a packet: an overflow bit drops the packet
unfoldable pub packet_done : ℕ → ℕ → ℕ → Mouse → Mouse
packet_done w h byte m =
    let f = m.packet0 in
    let m1 = record m { packet2 = byte; phase = 0 } in
    if not (bit_and f 0xC0 == 0) then m1 else record m1 {
      x = clamp w (m.x +ℤ delta f 0x10 m.packet1);
      y = clamp h (m.y -ℤ delta f 0x20 byte);
      buttons = bit_and f 0x07;
    }

-- `mouse_irq`
unfoldable pub irq : ℕ → ℕ → ℕ → ℕ → Mouse → Mouse
irq w h status byte m =
    if bit_and status 0x01 == 0
    then m
    else if m.phase == 0
    then (if bit_and byte 0x08 == 0 then m else record m { packet0 = byte; phase = 1 })
    else if m.phase == 1
    then record m { packet1 = byte; phase = 2 }
    else if m.phase == 2
    then packet_done w h byte m
    else m
