-- ===== src/Kbd.antt =====
-- kernel/kbd.cpp: the keyboard decoder, which turns set-1 scancodes into ASCII and tracks the shift
-- keys, and the input ring buffer between the IRQ1 handler and SYS_READ. The static variables are the
-- record `Keyboard`; a character is its code, and 0 means "no character" as in the source.
pub mod Keys
pub mod Ring
pub mod Scancodes
use hrafn_os.Prelude.{
  ℕ, zero, suc, ◌+◌, ◌-◌, ◌*◌, ◌/◌, ◌%◌, ◌^◌, ◌≤◌, ◌<◌, min, max, ◌≡◌, ◌≢◌, refl, sym, ap, ◌∙◌, ◌↔◌,
  Bool, true, false, not, ◌&&◌, ◌||◌, inl, inr, ◌⊎◌, List, [], ◌∷◌, ◌++◌, map, Option, none, some,
  bit_and, bit_or, bit_xor, arith, ltb, leb, ◌==◌, ==_iff, ltb→lt, lt→ltb, leb→le, tests,
  Bool-cases, Option-cases, if◌then◌else◌, get_or, get_elem?, set, take, drop, replicate, length,
  length-set, length-append, length-map, length-take, length-drop, length-replicate,
  take-append-drop, get_elem?-set_self, get_elem?-set_ne, get_or-set_self, get_or-set_ne,
  get_or-beyond, set-beyond, get_or-replicate,
}

abbrev pub map_lower : List ℕ
map_lower =
    0 ∷ 0 ∷ 49 ∷ 50 ∷ 51 ∷ 52 ∷ 53 ∷ 54 ∷ 55 ∷ 56 ∷ 57 ∷ 48 ∷ 45 ∷ 61 ∷ 8 ∷ 9 ∷ 113 ∷ 119 ∷ 101
    ∷ 114 ∷ 116 ∷ 121 ∷ 117 ∷ 105 ∷ 111 ∷ 112 ∷ 91 ∷ 93 ∷ 10 ∷ 0 ∷ 97 ∷ 115 ∷ 100 ∷ 102 ∷ 103 ∷ 104
    ∷ 106 ∷ 107 ∷ 108 ∷ 59 ∷ 39 ∷ 96 ∷ 0 ∷ 92 ∷ 122 ∷ 120 ∷ 99 ∷ 118 ∷ 98 ∷ 110 ∷ 109 ∷ 44 ∷ 46 ∷ 47
    ∷ 0 ∷ 42 ∷ 0 ∷ 32 ∷ 0 ∷ 0 ∷ 0 ∷ 0 ∷ 0 ∷ 0 ∷ 0 ∷ 0 ∷ 0 ∷ 0 ∷ 0 ∷ 0 ∷ 0 ∷ 0 ∷ 0 ∷ 0 ∷ 0 ∷ 0 ∷ 0
    ∷ 0 ∷ 0 ∷ 0 ∷ 0 ∷ 0 ∷ 0 ∷ 0 ∷ 0 ∷ 0 ∷ 0 ∷ 0 ∷ 0 ∷ 0 ∷ 0 ∷ 0 ∷ 0 ∷ 0 ∷ 0 ∷ 0 ∷ 0 ∷ 0 ∷ 0 ∷ 0 ∷ 0
    ∷ 0 ∷ 0 ∷ 0 ∷ 0 ∷ 0 ∷ 0 ∷ 0 ∷ 0 ∷ 0 ∷ 0 ∷ 0 ∷ 0 ∷ 0 ∷ 0 ∷ 0 ∷ 0 ∷ 0 ∷ 0 ∷ 0 ∷ 0 ∷ 0 ∷ 0 ∷ 0 ∷ 0
    ∷ 0 ∷ 0 ∷ 0 ∷ []

abbrev pub map_upper : List ℕ
map_upper =
    0 ∷ 0 ∷ 33 ∷ 64 ∷ 35 ∷ 36 ∷ 37 ∷ 94 ∷ 38 ∷ 42 ∷ 40 ∷ 41 ∷ 95 ∷ 43 ∷ 8 ∷ 9 ∷ 81 ∷ 87 ∷ 69 ∷ 82
    ∷ 84 ∷ 89 ∷ 85 ∷ 73 ∷ 79 ∷ 80 ∷ 123 ∷ 125 ∷ 10 ∷ 0 ∷ 65 ∷ 83 ∷ 68 ∷ 70 ∷ 71 ∷ 72 ∷ 74 ∷ 75 ∷ 76
    ∷ 58 ∷ 34 ∷ 126 ∷ 0 ∷ 124 ∷ 90 ∷ 88 ∷ 67 ∷ 86 ∷ 66 ∷ 78 ∷ 77 ∷ 60 ∷ 62 ∷ 63 ∷ 0 ∷ 42 ∷ 0 ∷ 32
    ∷ 0 ∷ 0 ∷ 0 ∷ 0 ∷ 0 ∷ 0 ∷ 0 ∷ 0 ∷ 0 ∷ 0 ∷ 0 ∷ 0 ∷ 0 ∷ 0 ∷ 0 ∷ 0 ∷ 0 ∷ 0 ∷ 0 ∷ 0 ∷ 0 ∷ 0 ∷ 0 ∷ 0
    ∷ 0 ∷ 0 ∷ 0 ∷ 0 ∷ 0 ∷ 0 ∷ 0 ∷ 0 ∷ 0 ∷ 0 ∷ 0 ∷ 0 ∷ 0 ∷ 0 ∷ 0 ∷ 0 ∷ 0 ∷ 0 ∷ 0 ∷ 0 ∷ 0 ∷ 0 ∷ 0 ∷ 0
    ∷ 0 ∷ 0 ∷ 0 ∷ 0 ∷ 0 ∷ 0 ∷ 0 ∷ 0 ∷ 0 ∷ 0 ∷ 0 ∷ 0 ∷ 0 ∷ 0 ∷ 0 ∷ 0 ∷ 0 ∷ 0 ∷ 0 ∷ 0 ∷ 0 ∷ 0 ∷ []

abbrev pub kbd_buf_size : ℕ
kbd_buf_size = 128

pub record Keyboard : Type 0 where
  pub shift : Bool
  pub buf : List ℕ
  pub head : ℕ
  pub tail : ℕ

-- the variables before the first interrupt
abbrev pub power_on : Keyboard
power_on = record { shift = false; buf = replicate 128 0; head = 0; tail = 0 }

-- 0x2A and 0x36 are the left and the right shift key
abbrev pub is_shift : ℕ → Bool
is_shift code = code == 0x2A || code == 0x36

-- "some keyboards send DEL for Backspace; normalize"
abbrev pub normalize : ℕ → ℕ
normalize c = if c == 0x7F then 8 else c

-- `table[sc]` for a table of 128 characters. `beyond` is what memory holds behind the table, which the
-- language leaves open.
abbrev pub read_table : (ℕ → ℕ) → List ℕ → ℕ → ℕ
read_table beyond table sc = if ltb sc 128 then get_or table sc 0 else beyond sc

pub handle_scancode : (ℕ → ℕ) → Keyboard → ℕ → ℕ × Keyboard
handle_scancode beyond k sc =
    if not (bit_and sc 0x80 == 0)
    then (0, if is_shift (bit_and sc 0x7F) then record k { shift = false } else k)
    else if is_shift sc
    then (0, record k { shift = true })
    else (
      normalize
          (if k.shift then read_table beyond map_upper sc else read_table beyond map_lower sc),
      k,
    )

-- A full buffer drops the character.
pub buffer_push : Keyboard → ℕ → Keyboard
buffer_push k c =
    let next = (k.head + 1) % kbd_buf_size in
    if next == k.tail then k else record k { buf = set k.buf k.head c; head = next }

-- `none` is the source's -1.
pub getchar : Keyboard → Option ℕ × Keyboard
getchar k =
    if k.tail == k.head
    then (none, k)
    else (some (get_or k.buf k.tail 0), record k { tail = (k.tail + 1) % kbd_buf_size })
