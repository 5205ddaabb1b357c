-- ===== src/Kbd/Scancodes.antt =====
-- The scancode decoder of kernel/kbd.cpp: which codes give a character, and the shift state after any
-- sequence of codes.
use hrafn_os.Kbd.{
  read_table, Keyboard, handle_scancode, map_lower, map_upper, is_shift, normalize, read_table,
}
use hrafn_os.Prelude.{
  List, ltb→lt, inl, inr, ◌∙◌, ◌≢◌, ◌≤◌, ◌-◌, Bool-cases, holds_under, holds_under-at, ℕ, ◌+◌, ◌<◌,
  ◌≡◌, refl, Bool, true, false, not, ◌&&◌, ◌||◌, ◌⊎◌, bit_and, arith, ltb, leb, ◌==◌, ==_iff,
  if◌then◌else◌, get_or, ◌-◌, ◌≤◌, Bool-cases, ◌≢◌, List, inr, inl, ◌∙◌,
}

-- the character of code `sc` with shift as given
pub char_of : (ℕ → ℕ) → Bool → ℕ → ℕ
char_of beyond s sc =
    if not (bit_and sc 0x80 == 0)
    then 0
    else if is_shift sc
    then 0
    else normalize (if s then read_table beyond map_upper sc else read_table beyond map_lower sc)

pub handle_scancode-char :
    (beyond : ℕ → ℕ) (k : Keyboard) (sc : ℕ)
    → (handle_scancode beyond k sc).0 ≡ char_of beyond k.shift sc
unfolding handle_scancode char_of
handle_scancode-char beyond k sc = ground arith

-- printable, newline, backspace or tab
abbrev pub plain : ℕ → Bool
plain c = leb 0x20 c && ltb c 0x7F || (c == 10 || (c == 8 || c == 9))

-- For a byte, bit 7 says that it is 128 or more, and the other bits are the rest.
abbrev bit_row : ℕ → Bool
bit_row sc =
    if ltb sc 128
    then bit_and sc 0x80 == 0
    else not (bit_and sc 0x80 == 0) && bit_and sc 0x7F == sc - 128

bit_table : holds_under bit_row 256 ≡ true
unfolding holds_under
bit_table = refl

pub low_bit : (sc : ℕ) → sc < 128 → (bit_and sc 0x80 == 0) ≡ true
low_bit sc l = let r = holds_under-at bit_row {k = sc} bit_table (omega arith) in ground arith

high_bit :
    (sc : ℕ) → 128 ≤ sc → sc < 256 → ((bit_and sc 0x80 == 0) ≡ false) × (bit_and sc 0x7F ≡ sc - 128)
high_bit sc l h = let r = holds_under-at bit_row {k = sc} bit_table h in ground arith

abbrev row : List ℕ → ℕ → Bool
row t sc = plain (normalize (get_or t sc 0)) || normalize (get_or t sc 0) == 0

upper_table : holds_under (row map_upper) 128 ≡ true
unfolding holds_under
upper_table = refl

lower_table : holds_under (row map_lower) 128 ≡ true
unfolding holds_under
lower_table = refl

pub or_cases : (a b : Bool) → (a || b) ≡ true → (a ≡ true) ⊎ (b ≡ true)
or_cases true b h = inl refl
or_cases false b h = inr h

pub three : (a b c : Bool) → (a && (b && c)) ≡ true → (a ≡ true) × (b ≡ true) × (c ≡ true)
three a b c h = ground arith

pub implied : (a b : Bool) → (not a || b) ≡ true → a ≡ true → b ≡ true
implied a b h k = ground arith

pub not-true : (b : Bool) → not b ≡ true → b ≡ false
not-true b h = ground arith

-- the press of a key that is no shift key
pub char_of-press :
    (beyond : ℕ → ℕ) (s : Bool) (sc : ℕ)
    → ltb sc 128 ≡ true
    → is_shift sc ≡ false
    → char_of beyond s sc ≡ normalize (if s then get_or map_upper sc 0 else get_or map_lower sc 0)
unfolding char_of
char_of-press beyond true sc t i = rw (low_bit sc (ltb→lt sc 128 t), i, t) refl
char_of-press beyond false sc t i = rw (low_bit sc (ltb→lt sc 128 t), i, t) refl

pressed :
    (s : Bool) (sc : ℕ)
    → sc < 128
    → let c = normalize (if s then get_or map_upper sc 0 else get_or map_lower sc 0) in
      (plain c ≡ true) ⊎ ((c == 0) ≡ true)
pressed true sc l = or_cases _ _ (holds_under-at (row map_upper) upper_table l)
pressed false sc l = or_cases _ _ (holds_under-at (row map_lower) lower_table l)

char_of-plain :
    (beyond : ℕ → ℕ) (s : Bool) (sc : ℕ)
    → sc < 256
    → (char_of beyond s sc ≡ 0)
      ⊎ ((plain (char_of beyond s sc) ≡ true) × (sc < 128) × (is_shift sc ≡ false))
unfolding char_of
char_of-plain beyond s sc h = elim (Bool-cases (ltb sc 128)) [
  | inr t ↦ inl (rw ((high_bit sc (ground arith) h).0) refl)
  | inl t ↦
      let l = ltb→lt sc 128 t in
      elim (Bool-cases (is_shift sc)) [
        | inl i ↦ inl (rw (low_bit sc l, i) refl)
        | inr i ↦ elim (pressed s sc l) [
          | inl p ↦ inr (rw (char_of-press beyond s sc t i) p, l, i)
          | inr z ↦ inl (char_of-press beyond s sc t i ∙ (==_iff _ _).0 z)
        ]
      ]
]

no_shift : (sc : ℕ) → is_shift sc ≡ false → (sc ≢ 0x2A) × (sc ≢ 0x36)
no_shift sc i = (λ e. ground arith, λ e. ground arith)

decoded_shift :
    (beyond : ℕ → ℕ) (k : Keyboard) (sc : ℕ)
    → sc < 256
    → (handle_scancode beyond k sc).1.shift ≡ (
        if (sc == 0x2A) || (sc == 0x36)
        then true
        else if (sc == 0xAA) || (sc == 0xB6)
        then false
        else k.shift)
unfolding handle_scancode
decoded_shift beyond k sc h = elim (Bool-cases (ltb sc 128)) [
  | inl t ↦
      let b = low_bit sc (ltb→lt sc 128 t) in
      elim (Bool-cases (is_shift sc)) [
        | inl i ↦ rw (b, i) refl
        | inr i ↦ let r : ((sc == 0xAA) || (sc == 0xB6)) ≡ false = ground arith in rw (b, i, r) refl
      ]
  | inr t ↦
      let b = high_bit sc (ground arith) h in
      let i : ((sc == 0x2A) || (sc == 0x36)) ≡ false = ground arith in
      elim (Bool-cases (is_shift (sc - 128))) [
        | inl e ↦
            let r : ((sc == 0xAA) || (sc == 0xB6)) ≡ true = ground arith in
            rw (b.0, b.1, e, i, r) refl
        | inr e ↦
            let r : ((sc == 0xAA) || (sc == 0xB6)) ≡ false = ground arith in
            rw (b.0, b.1, e, i, r) refl
      ]
]

-- The ring stays as it is.
handle_scancode-keeps :
    (beyond : ℕ → ℕ) (k : Keyboard) (sc : ℕ)
    → let k' = (handle_scancode beyond k sc).1 in
      (k'.buf ≡ k.buf) × (k'.head ≡ k.head) × (k'.tail ≡ k.tail)
unfolding handle_scancode
handle_scancode-keeps beyond k sc = ground arith

-- A scancode byte decodes to a printable character, newline, backspace or tab, or to none; the release
-- of a key, from 128 up, and a shift key give none, whatever lies behind the tables. Shift is on after
-- the press of a shift key, 0x2A or 0x36, off after the release of one, 0xAA or 0xB6, and otherwise as it
-- was. The ring is not touched.
pub handle_scancode-decoded :
    (beyond : ℕ → ℕ) (k : Keyboard) (sc : ℕ)
    → sc < 256
    → let (c, k') = handle_scancode beyond k sc in
      ((c ≡ 0) ⊎ ((plain c ≡ true) × (sc < 128) × (sc ≢ 0x2A) × (sc ≢ 0x36)))
      × (k'.shift ≡ (
          if (sc == 0x2A) || (sc == 0x36)
          then true
          else if (sc == 0xAA) || (sc == 0xB6)
          then false
          else k.shift))
      × (k'.buf ≡ k.buf)
      × (k'.head ≡ k.head)
      × (k'.tail ≡ k.tail)
handle_scancode-decoded beyond k sc h =
    let keep = handle_scancode-keeps beyond k sc in
    (
      rw (handle_scancode-char beyond k sc) (elim (char_of-plain beyond k.shift sc h) [
        | inl z ↦ inl z
        | inr (p, l, i) ↦ let n = no_shift sc i in inr (p, l, n.0, n.1)
      ]),
      decoded_shift beyond k sc h,
      keep.0,
      keep.1,
      keep.2,
    )

abbrev pub lower_case : ℕ → Bool
lower_case c = leb b'a' c && leb c b'z'

abbrev pub same_letter : ℕ → ℕ → Bool
same_letter l u =
    if lower_case l || lower_case (u + 32) then l == u + 32 else (not (l == 0) || u == 0)

same_letter-eq :
    (l u : ℕ) → same_letter l u ≡ true → (lower_case l || lower_case (u + 32)) ≡ true → l ≡ u + 32
same_letter-eq l u h c = ground (arith, ==_iff l (u + 32))

abbrev pair_row : ℕ → Bool
pair_row sc = same_letter (get_or map_lower sc 0) (get_or map_upper sc 0)

pair_table : holds_under pair_row 128 ≡ true
unfolding holds_under
pair_table = refl

-- The two translation tables agree on letters: at every position below 128, the lower table has a
-- small letter exactly when the upper table has a capital, and then it is the same letter.
pub map_upper-letters :
    (sc : ℕ)
    → sc < 128
    → (lower_case (get_or map_lower sc 0) || lower_case (get_or map_upper sc 0 + 32)) ≡ true
    → get_or map_lower sc 0 ≡ get_or map_upper sc 0 + 32
map_upper-letters sc h c = same_letter-eq _ _ (holds_under-at pair_row pair_table h) c
