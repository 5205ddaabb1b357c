-- ===== src/Fb/Scroll.antt =====
-- `fb_scroll_up` of kernel/fb.cpp moves the picture up and clears what is left below.
use native.Mathlib.Nat.{mul_assoc, add-mul}
use hrafn_os.Memory.{
  write32, write64, write32-outside, write64-outside, write64-bytes, write64-read64, read32-write32,
  read32-same,
}
use hrafn_os.Pmm.{Memory, read32, read64}
use hrafn_os.Fb.{Fb, fill_line, fill_lines, move_words, fb_scroll_up}
use hrafn_os.Prelude.{
  ℕ, zero, suc, ◌+◌, ◌-◌, ◌*◌, ◌/◌, ◌%◌, ◌^◌, ◌≤◌, ◌<◌, ◌≡◌, ◌≢◌, refl, sym, ap, ◌∙◌, true, false,
  ◌&&◌, ◌||◌, inl, inr, ◌⊎◌, arith, ltb, leb, ◌==◌, Bool-cases, if◌then◌else◌, set,
}

-- After the words `0` to `i` were moved from `shift` bytes further on, byte `x` behind `dst` in the `n`
-- words from word `i` on is the one that stood `shift` bytes further on.
move_words-at :
    (n i dst shift : ℕ) (m : Memory) (x : ℕ)
    → ((a : ℕ) → m a < 256)
    → 8 ≤ shift
    → move_words n i dst (dst + shift) m (dst + x)
      ≡ (if leb (8 * i) x && ltb x (8 * (i + n)) then m (dst + shift + x) else m (dst + x))
unfolding move_words
move_words-at zero i dst shift m x bytes far = ground arith
move_words-at (suc n) i dst shift m x bytes far =
    move_words-at n (i + 1) dst shift _ x (write64-bytes m (dst + 8 * i) _ bytes) far ∙ one
  where
    m1 : Memory
    m1 = write64 m (dst + 8 * i) (read64 m (dst + shift + 8 * i))

    one :
        (if leb (8 * (i + 1)) x && ltb x (8 * (i + 1 + n))
          then m1 (dst + shift + x)
          else m1 (dst + x))
        ≡ (if leb (8 * i) x && ltb x (8 * (i + suc n)) then m (dst + shift + x) else m (dst + x))
    one = elim (Bool-cases (leb (8 * i) x && ltb x (8 * i + 8))) [
      | inl e ↦
          let j : x ≡ 8 * i + (x - 8 * i) = ground arith in
          let c : (leb (8 * (i + 1)) x && ltb x (8 * (i + 1 + n))) ≡ false = ground arith in
          let t : (leb (8 * i) x && ltb x (8 * (i + suc n))) ≡ true = ground arith in
          rw (c, t)
            (ap m1 {x = dst + x} {y = dst + 8 * i + (x - 8 * i)} (omega arith)
              ∙ write64-read64 m m (dst + 8 * i) (dst + shift + 8 * i) (x - 8 * i) bytes
                  (ground arith)
              ∙ ap m {x = dst + shift + 8 * i + (x - 8 * i)} {y = dst + shift + x} (omega arith))
      | inr e ↦
          let a : m1 (dst + x) ≡ m (dst + x) =
            write64-outside m (dst + 8 * i) _ (dst + x) (ground arith) in
          elim (Bool-cases (leb (8 * (i + 1)) x && ltb x (8 * (i + 1 + n)))) [
            | inl c ↦
                let t : (leb (8 * i) x && ltb x (8 * (i + suc n))) ≡ true = ground arith in
                rw (c, t) (write64-outside m (dst + 8 * i) _ (dst + shift + x) (ground arith))
            | inr c ↦
                let t : (leb (8 * i) x && ltb x (8 * (i + suc n))) ≡ false = ground arith in
                rw (c, t) a
          ]
    ]

move_words-whole :
    (height lines pitch dst : ℕ) (m : Memory) (x : ℕ)
    → ((a : ℕ) → m a < 256)
    → lines ≢ 0
    → lines < height
    → pitch % 8 ≡ 0
    → 8 ≤ pitch
    → x < (height - lines) * pitch
    → move_words ((height * pitch - lines * pitch) / 8) 0 dst (dst + lines * pitch) m (dst + x)
      ≡ m (dst + lines * pitch + x)
move_words-whole height lines pitch dst m x bytes some_lines less eight wide l =
    let k : pitch ≡ pitch / 8 * 8 = omega arith in
    let d : (height - lines) * pitch ≡ (height - lines) * (pitch / 8) * 8 =
      ap (λ p. (height - lines) * p) k ∙ sym (mul_assoc (height - lines) (pitch / 8) 8) in
    let h : height ≡ height - lines + lines = omega arith in
    let s : height * pitch ≡ (height - lines) * pitch + lines * pitch =
      ap (λ n. n * pitch) h ∙ add-mul (height - lines) lines pitch in
    let positive : 1 ≤ lines = ground arith in
    let far : pitch ≤ lines * pitch = grind arith in
    move_words-at _ 0 dst (lines * pitch) m x bytes (omega arith)
    ∙ (let t : (leb (8 * 0) x && ltb x (8 * (0 + (height * pitch - lines * pitch) / 8))) ≡ true =
          ground arith in
        rw t refl)

fill_line-outside :
    (n x row color : ℕ) (m : Memory) (a : ℕ)
    → (a < row + 4 * x) ⊎ (row + 4 * (x + n) ≤ a)
    → fill_line n x row color m a ≡ m a
unfolding fill_line
fill_line-outside zero x row color m a out = refl
fill_line-outside (suc n) x row color m a out =
    fill_line-outside n (x + 1) row color _ a (omega arith)
    ∙ write32-outside m (row + 4 * x) color a (omega arith)

fill_line-pixel :
    (n x row color : ℕ) (m : Memory) (px : ℕ)
    → color < 2 ^ 32
    → x ≤ px
    → px < x + n
    → read32 (fill_line n x row color m) (row + 4 * px) ≡ color
unfolding fill_line
fill_line-pixel zero x row color m px c l r = absurd (omega arith)
fill_line-pixel (suc n) x row color m px c l r = elim (Bool-cases (px == x)) [
  | inl e ↦
      let q : px ≡ x = ground arith in
      rw q (
        read32-same _ (write32 m (row + 4 * x) color) (row + 4 * x)
          (λ a lo hi. fill_line-outside n (x + 1) row color _ a (omega arith))
        ∙ read32-write32 m (row + 4 * x) color c)
  | inr e ↦ fill_line-pixel n (x + 1) row color _ px c (ground arith) (omega arith)
]

module _ (fb : Fb) (color : ℕ) (fits : 4 * fb.g_width ≤ fb.g_pitch) where
  next_line : (y : ℕ) → (y + 1) * fb.g_pitch ≡ y * fb.g_pitch + fb.g_pitch
  next_line y = grind arith

  fill_lines-above :
      (n y : ℕ) (m : Memory) (a : ℕ)
      → a < fb.g_fb + y * fb.g_pitch
      → fill_lines n y fb color m a ≡ m a
  unfolding fill_lines
  fill_lines-above zero y m a l = refl
  fill_lines-above (suc n) y m a l =
      let e = next_line y in
      fill_lines-above n (y + 1) _ a (omega arith)
      ∙ fill_line-outside fb.g_width 0 (fb.g_fb + y * fb.g_pitch) color m a (inl (omega arith))

  fill_lines-pixel :
      (n y : ℕ) (m : Memory) (py px : ℕ)
      → color < 2 ^ 32
      → px < fb.g_width
      → y ≤ py
      → py < y + n
      → read32 (fill_lines n y fb color m) (fb.g_fb + py * fb.g_pitch + 4 * px) ≡ color
  unfolding fill_lines
  fill_lines-pixel zero y m py px c lx l r = absurd (omega arith)
  fill_lines-pixel (suc n) y m py px c lx l r = elim (Bool-cases (py == y)) [
    | inl e ↦
        let q : py ≡ y = ground arith in
        let h = next_line y in
        rw q (
          read32-same _ (fill_line fb.g_width 0 (fb.g_fb + y * fb.g_pitch) color m)
            (fb.g_fb + y * fb.g_pitch + 4 * px)
            (λ a lo hi. fill_lines-above n (y + 1) _ a (omega arith))
          ∙ fill_line-pixel fb.g_width 0 (fb.g_fb + y * fb.g_pitch) color m px c (omega arith)
              (omega arith))
    | inr e ↦ fill_lines-pixel n (y + 1) _ py px c lx (ground arith) (omega arith)
  ]

-- With a frame buffer set up, in a memory of bytes, for a count of lines that is not 0 and less than the
-- height, and for lines of a multiple of 8 bytes that hold their pixels: `fb_scroll_up` moves every byte of
-- the lines from `lines` on up by that many lines, and all pixels of the last `lines` lines get the color.
pub fb_scroll_up-moves :
    (lines color : ℕ) (fb : Fb) (m : Memory)
    → fb.g_fb ≢ 0
    → lines ≢ 0
    → lines < fb.g_height
    → ((a : ℕ) → m a < 256)
    → color < 2 ^ 32
    → fb.g_pitch % 8 ≡ 0
    → 8 ≤ fb.g_pitch
    → 4 * fb.g_width ≤ fb.g_pitch
    → ((x : ℕ)
        → x < (fb.g_height - lines) * fb.g_pitch
        → fb_scroll_up lines color fb m (fb.g_fb + x) ≡ m (fb.g_fb + lines * fb.g_pitch + x))
      × ((py px : ℕ)
          → fb.g_height - lines ≤ py
          → py < fb.g_height
          → px < fb.g_width
          → read32 (fb_scroll_up lines color fb m) (fb.g_fb + py * fb.g_pitch + 4 * px) ≡ color)
unfolding fb_scroll_up
fb_scroll_up-moves lines color fb m set some_lines less bytes c eight wide fits =
    let z : ((fb.g_fb == 0) || (lines == 0)) ≡ false = ground arith in
    let y : leb fb.g_height lines ≡ false = ground arith in
    rw (z, y)
      (
        λ x l.
            fill_lines-above fb color fits lines (fb.g_height - lines) _ (fb.g_fb + x) (omega arith)
            ∙ move_words-whole fb.g_height lines fb.g_pitch fb.g_fb m x bytes some_lines less eight
                wide l,
        λ py px l r lx.
            fill_lines-pixel fb color fits lines (fb.g_height - lines) _ py px c lx l (omega arith),
      )
