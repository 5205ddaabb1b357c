-- ===== src/Tests/Screen.antt =====
-- The keyboard, the terminal, the mouse, the windows and the shell's history at concrete inputs.
use hrafn_os.Huginn.Edit.{Editor, read_line}
use hrafn_os.Huginn.Edit.Typed.{IsPlain, edits, Spells, read_line-edits}
use hrafn_os.Prelude.Int.{◌+ℤ◌, pos, negsuc}
use hrafn_os.Kbd.{Keyboard, buffer_push, getchar, handle_scancode}
use hrafn_os.Kbd.Ring.{
  contents, enqueue, dequeue, power_on-IsValid, buffer_push-enqueue, getchar-dequeue,
}
use hrafn_os.Kbd.Ring
use hrafn_os.Kbd.Scancodes.{plain, handle_scancode-decoded}
use hrafn_os.Term.{Term, normal, write_all}
use hrafn_os.Term.Cursor.{write_all-IsValid, Shown, write_all-Shown}
use hrafn_os.Term.Cursor
use hrafn_os.Console.{start_state, Console, console_write}
use hrafn_os.Console.Cursor.{console_write-Good, Good}
use hrafn_os.Mouse.{Mouse, irq}
use hrafn_os.Mouse.Bounds.{init-IsValid, irq-IsValid}
use hrafn_os.Mouse.Bounds
use hrafn_os.Window.{Window, topmost_from}
use hrafn_os.Window.Stack.{Topmost, topmost_from-Topmost}
use hrafn_os.Huginn.{hist_push}
use hrafn_os.Huginn.History.{hist_push-IsValid, hist_push-newest}
use hrafn_os.Huginn.History
use hrafn_os.Prelude.{
  ◌++◌, none, some, ◌≤◌, ℕ, zero, suc, ◌<◌, ◌≡◌, refl, true, false, ◌⊎◌, [], ◌∷◌, arith, get_or,
  set, replicate, List, length, Option, ◌≢◌,
}

abbrev one_key : Keyboard
one_key = record { shift = true; buf = set (replicate 128 0) 0 97; head = 1; tail = 0 }

one_key-IsValid : Ring.IsValid one_key
one_key-IsValid = record { storage = refl; head_in = omega arith; tail_in = omega arith }

buffer_push-enqueue_example :
    Ring.IsValid (buffer_push one_key 98)
    × (contents (buffer_push one_key 98) ≡ enqueue (contents one_key) 98)
buffer_push-enqueue_example = buffer_push-enqueue one_key 98 one_key-IsValid

getchar-dequeue_example :
    let (r, k) = getchar one_key in Ring.IsValid k × ((r, contents k) ≡ dequeue (contents one_key))
getchar-dequeue_example = getchar-dequeue one_key one_key-IsValid

-- the key of the letter a
abbrev a_key : ℕ
a_key = 30

handle_scancode-decoded_example :
    let (c, k) = handle_scancode (λ _. 7) one_key a_key in
    ((c ≡ 0) ⊎ ((plain c ≡ true) × (a_key < 128) × (a_key ≢ 0x2A) × (a_key ≢ 0x36)))
    × (k.shift ≡ true)
    × (k.buf ≡ one_key.buf)
    × (k.head ≡ 1)
    × (k.tail ≡ 0)
handle_scancode-decoded_example = handle_scancode-decoded (λ _. 7) one_key a_key (omega arith)

abbrev blank : Term
blank = record {
  grid = λ _ _. 32;
  col = 60;
  row = 19;
  state = normal;
  param = 0;
  have_param = false;
}

blank-IsValid : Cursor.IsValid blank
blank-IsValid = record { in_cols = omega arith; in_rows = omega arith }

-- text that runs over the last column of the last row, a tab, and an escape sequence
write_all-IsValid_example :
    Cursor.IsValid (write_all (65 ∷ 66 ∷ 67 ∷ 68 ∷ 69 ∷ 9 ∷ 27 ∷ 91 ∷ 50 ∷ 74 ∷ []) blank)
write_all-IsValid_example =
    write_all-IsValid (65 ∷ 66 ∷ 67 ∷ 68 ∷ 69 ∷ 9 ∷ 27 ∷ 91 ∷ 50 ∷ 74 ∷ []) blank blank-IsValid

printable : Cursor.AllPrintable (72 ∷ 105 ∷ [])
printable zero l = (omega arith, omega arith)
printable (suc zero) l = (omega arith, omega arith)
printable (suc (suc i)) l = absurd (omega arith)

write_all-Shown_example : Shown (72 ∷ 105 ∷ []) blank (write_all (72 ∷ 105 ∷ []) blank)
write_all-Shown_example = write_all-Shown (72 ∷ 105 ∷ []) blank refl printable (omega arith)

abbrev console : Console
console = record {
  cols = 80;
  rows = 25;
  col = 79;
  row = 24;
  state = start_state;
  param = 0;
  have_param = false;
}

console_write-Good_example : Good 80 25 (console_write (9 ∷ 65 ∷ 8 ∷ 27 ∷ 91 ∷ 74 ∷ []) console)
console_write-Good_example =
    console_write-Good 80 25 (omega arith) (omega arith) (9 ∷ 65 ∷ 8 ∷ 27 ∷ 91 ∷ 74 ∷ []) console
      (record { cols_are = refl; rows_are = refl; in_cols = omega arith; in_rows = omega arith })

-- two bytes of a packet are in
abbrev third_byte : Mouse
third_byte = record {
  x = pos 2;
  y = pos 599;
  buttons = 0;
  packet0 = 0x19;
  packet1 = 250;
  packet2 = 0;
  phase = 2;
}

third_byte-IsValid : Bounds.IsValid 800 600 third_byte
unfolding ◌+ℤ◌
third_byte-IsValid = record {
  x_on = (omega arith, omega arith);
  y_on = (omega arith, omega arith);
  phases = omega arith;
}

irq-IsValid_example : Bounds.IsValid 800 600 (irq 800 600 1 7 third_byte)
irq-IsValid_example =
    irq-IsValid 800 600 1 7 third_byte (omega arith) (omega arith) third_byte-IsValid

abbrev win : ℕ → Window
win n = record {
  x = pos n;
  y = negsuc 4;
  w = pos 100;
  h = pos 50;
  content = n;
  title = 0;
  is_term = false;
}

topmost_from-Topmost_example :
    Topmost 0
      (pos 30)
      (pos 2)
      (win 10 ∷ win 20 ∷ win 200 ∷ [])
      (topmost_from 0 (pos 30) (pos 2) (win 10 ∷ win 20 ∷ win 200 ∷ []))
topmost_from-Topmost_example =
    topmost_from-Topmost 0 (pos 30) (pos 2) (win 10 ∷ win 20 ∷ win 200 ∷ [])

short : (i : ℕ) → History.Fits (get_or ((108 ∷ 115 ∷ []) ∷ []) i [])
short zero = omega arith
short (suc i) = omega arith

hist_push-IsValid_example : History.IsValid (hist_push (99 ∷ 100 ∷ []) ((108 ∷ 115 ∷ []) ∷ []))
hist_push-IsValid_example =
    hist_push-IsValid (99 ∷ 100 ∷ []) ((108 ∷ 115 ∷ []) ∷ [])
      (record { count = omega arith; lines = short })

-- a, b, backspace, c, with an empty read between.
abbrev some_typing : List (Option ℕ)
some_typing = some 97 ∷ some 98 ∷ none ∷ some 8 ∷ some 99 ∷ []

some_typing-IsPlain : IsPlain some_typing
some_typing-IsPlain = (
  λ e. omega arith,
  λ e. omega arith,
  λ e. omega arith,
  (
    λ e. omega arith,
    λ e. omega arith,
    λ e. omega arith,
    (
      λ e. omega arith,
      λ e. omega arith,
      λ e. omega arith,
      (λ e. omega arith, λ e. omega arith, λ e. omega arith, tt),
    ),
  ),
)

read_line-edits_example :
    (t : Editor) × (read_line 6 [] (some_typing ++ some 10 ∷ some 120 ∷ []) (λ _. 0)
      ≡ some (some 120 ∷ [], t))
    × (t.n ≡ length (edits some_typing []))
    × (t.n ≤ 63)
    × Spells t.line (edits some_typing [])
    × (t.line t.n ≡ 0)
read_line-edits_example =
    read_line-edits 6 [] some_typing (some 120 ∷ []) (λ _. 0) some_typing-IsPlain (omega arith)
