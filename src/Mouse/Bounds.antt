-- ===== src/Mouse/Bounds.antt =====
-- The pointer of kernel/mouse.cpp stays on the screen.
use hrafn_os.Prelude.Int.{ℤ, pos, ◌+ℤ◌, ◌-ℤ◌, ◌≤ℤ◌}
use hrafn_os.Mouse.{Mouse, init, clamp, packet_done, irq}
use hrafn_os.Prelude.{ℕ, ◌<◌, inl, inr, bit_and, arith, ◌==◌, Bool-cases}

-- 0 <= v && v < size
abbrev pub On : ℕ → ℤ → Type 0
On size v = (pos 0 ≤ℤ v) × (v +ℤ pos 1 ≤ℤ pos size)

pub record IsValid (w h : ℕ) (m : Mouse) : Type 0 where
  pub x_on : On w m.x
  pub y_on : On h m.y
  pub phases : m.phase < 3

clamp-On : (size : ℕ) (v : ℤ) → 0 < size → On size (clamp size v)
unfolding clamp ◌+ℤ◌ ◌-ℤ◌
clamp-On size v l = ground arith

-- On a screen of at least one pixel `mouse_init` puts the pointer on the screen.
pub init-IsValid : (w h : ℕ) (m : Mouse) → 0 < w → 0 < h → IsValid w h (init w h m)
unfolding ◌+ℤ◌
init-IsValid w h m lw lh = record {
  x_on = (omega arith, ground arith);
  y_on = (omega arith, ground arith);
  phases = omega arith;
}

-- On a screen of at least one pixel with the pointer on it, every byte that `mouse_irq` takes
-- leaves the pointer on the screen, whatever the packet says.
pub irq-IsValid :
    (w h status byte : ℕ) (m : Mouse)
    → 0 < w
    → 0 < h
    → IsValid w h m
    → IsValid w h (irq w h status byte m)
unfolding irq packet_done
irq-IsValid w h status byte m lw lh v = elim (Bool-cases (bit_and status 0x01 == 0)) [
  | inl e ↦ rw e v
  | inr e ↦ rw e (elim (Bool-cases (m.phase == 0)) [
    | inl p ↦ rw p (elim (Bool-cases (bit_and byte 0x08 == 0)) [
      | inl q ↦ rw q v
      | inr q ↦ rw q record { x_on = v.x_on; y_on = v.y_on; phases = omega arith }
    ])
    | inr p ↦ rw p (elim (Bool-cases (m.phase == 1)) [
      | inl q ↦ rw q record { x_on = v.x_on; y_on = v.y_on; phases = omega arith }
      | inr q ↦ rw q (elim (Bool-cases (m.phase == 2)) [
        | inl r ↦ rw r (elim (Bool-cases (bit_and m.packet0 0xC0 == 0)) [
          | inl z ↦
              rw z record { x_on = clamp-On w _ lw; y_on = clamp-On h _ lh; phases = omega arith }
          | inr z ↦ rw z record { x_on = v.x_on; y_on = v.y_on; phases = omega arith }
        ])
        | inr r ↦ rw r v
      ])
    ])
  ])
]
