-- ===== src/Huginn/Edit/Typed.antt =====
-- The line that `read_line` of huginn.cpp returns for plain typing is the line that an editor on a
-- stack of characters would give, and its buffer is never overrun.
use hrafn_os.Huginn.Edit.{
  Editor, call, wrote, yielded, put, is_control, type_byte, read_line_from, read_line,
}
use hrafn_os.Prelude.{
  ℕ, zero, suc, ◌+◌, ◌≤◌, ◌<◌, ◌≡◌, ◌≢◌, refl, true, false, ◌||◌, inl, inr, List, [], ◌∷◌, ◌++◌,
  Option, none, some, arith, ltb, ◌==◌, ltb→lt, Bool-cases, if◌then◌else◌, length,
}

-- No ESC, CR or LF.
abbrev pub IsPlain : List (Option ℕ) → Type 0
IsPlain [] = Unit
IsPlain (none ∷ es) = IsPlain es
IsPlain (some c ∷ es) = (c ≢ 27) × (c ≢ 13) × (c ≢ 10) × IsPlain es

-- The specification: the characters on the line, the last one first. Backspace takes the last one off,
-- a printable one is added while there are fewer than 63.
pub edit : ℕ → List ℕ → List ℕ
edit c [] = if (c == 8) || is_control c then [] else c ∷ []
edit c (x ∷ xs) =
    if c == 8
    then xs
    else if is_control c
    then x ∷ xs
    else if ltb (length (x ∷ xs)) 63
    then c ∷ x ∷ xs
    else x ∷ xs

pub edits : List (Option ℕ) → List ℕ → List ℕ
edits [] xs = xs
edits (none ∷ es) xs = edits es xs
edits (some c ∷ es) xs = edits es (edit c xs)

-- The buffer spells the characters.
abbrev pub Spells : (ℕ → ℕ) → List ℕ → Type 0
Spells line [] = Unit
Spells line (x ∷ xs) = (line (length xs) ≡ x) × Spells line xs

Spells-put :
    (line : ℕ → ℕ) (xs : List ℕ) (a c : ℕ)
    → length xs ≤ a
    → Spells line xs
    → Spells (put line a c) xs
Spells-put line [] a c l h = tt
Spells-put line (x ∷ xs) a c l (e, h) =
    let ne : (length xs == a) ≡ false = ground arith in
    (rw ne e, Spells-put line xs a c (omega arith) h)

-- The editor holds the characters.
record Holds (e : Editor) (xs : List ℕ) : Type 0 where
  size : e.n ≡ length xs
  room : e.n ≤ 63
  spells : Spells e.line xs

added :
    (c : ℕ) (e : Editor) (xs : List ℕ)
    → Holds e xs
    → e.n < 63
    → Holds (record (call (wrote (c ∷ [])) e) { line = put e.line e.n c; n = e.n + 1 }) (c ∷ xs)
added c e xs h l = record {
  size = (let s = h.size in omega arith);
  room = omega arith;
  spells =
      (let s = h.size in
        (rw (← s) (ground arith), Spells-put e.line xs e.n c (omega arith) h.spells));
}

type_byte-Holds :
    (c : ℕ) (e : Editor) (xs : List ℕ) → Holds e xs → Holds (type_byte c e) (edit c xs)
unfolding type_byte edit
type_byte-Holds c e [] h = elim (Bool-cases (c == 8)) [
  | inl b ↦ let z : ltb 0 e.n ≡ false = (let s = h.size in ground arith) in rw (b, z) h
  | inr b ↦ elim (Bool-cases (is_control c)) [
    | inl k ↦ rw (b, k) h
    | inr k ↦
        let s = h.size in
        let z : ltb e.n 63 ≡ true = ground arith in rw (b, k, z) (added c e [] h (omega arith))
  ]
]
type_byte-Holds c e (x ∷ xs) h = elim (Bool-cases (c == 8)) [
  | inl b ↦
      let s = h.size in
      let z : ltb 0 e.n ≡ true = ground arith in
      rw (b, z)
        (record { size = omega arith; room = (let r = h.room in omega arith); spells = h.spells.1 })
  | inr b ↦ elim (Bool-cases (is_control c)) [
    | inl k ↦ rw (b, k) h
    | inr k ↦ elim (Bool-cases (ltb e.n 63)) [
      | inl z ↦
          let y : ltb (length (x ∷ xs)) 63 ≡ true = rw (← h.size) z in
          rw (b, k, z, y) (added c e (x ∷ xs) h (ltb→lt _ _ z))
      | inr z ↦
          let y : ltb (length (x ∷ xs)) 63 ≡ false = rw (← h.size) z in
          rw (b, k, z, y) (record { size = h.size; room = h.room; spells = h.spells })
    ]
  ]
]

typed :
    (fuel : ℕ) (hist : List (List ℕ)) (es rest : List (Option ℕ)) (e : Editor) (xs : List ℕ)
    → IsPlain es
    → length es < fuel
    → Holds e xs
    → (t : Editor) × (read_line_from fuel hist (es ++ some 10 ∷ rest) e ≡ some (rest, t))
      × Holds t (edits es xs)
      × (t.line t.n ≡ 0)
unfolding read_line_from edits
typed zero hist es rest e xs p l h = absurd (omega arith)
typed (suc fuel) hist [] rest e xs p l h = (
  record (call (wrote (10 ∷ [])) e) { line = put e.line e.n 0 },
  refl,
  record {
    size = h.size;
    room = h.room;
    spells = Spells-put e.line xs e.n 0 (let s = h.size in omega arith) h.spells;
  },
  ground arith,
)
typed (suc fuel) hist (none ∷ es) rest e xs p l h =
    typed fuel hist es rest (call yielded e) xs p (omega arith)
      (record { size = h.size; room = h.room; spells = h.spells })
typed (suc fuel) hist (some c ∷ es) rest e xs (p, q, r, more) l h =
    let np : (c == 27) ≡ false = ground arith in
    let nq : ((c == 13) || (c == 10)) ≡ false = ground arith in
    rw (np, nq)
      (typed fuel hist es rest (type_byte c e) (edit c xs) more (omega arith)
        (type_byte-Holds c e xs h))

-- For bytes and empty reads without ESC, CR and LF that a newline ends, and with fuel for one round more
-- than there are of them, `read_line` returns and leaves the rest unread. It has written fewer than 64
-- characters and the NUL behind them, and the characters are those of the specification: backspaces
-- take back, control characters are dropped, and a full line takes no more.
pub read_line-edits :
    (fuel : ℕ) (hist : List (List ℕ)) (es rest : List (Option ℕ)) (line : ℕ → ℕ)
    → IsPlain es
    → length es < fuel
    → (t : Editor) × (read_line fuel hist (es ++ some 10 ∷ rest) line ≡ some (rest, t))
      × (t.n ≡ length (edits es []))
      × (t.n ≤ 63)
      × Spells t.line (edits es [])
      × (t.line t.n ≡ 0)
unfolding read_line
read_line-edits fuel hist es rest line p l =
    let (t, r, h, z) =
      typed fuel hist es rest (record { line = line; n = 0; hpos = length hist; calls = [] }) [] p l
        (record { size = refl; room = omega arith; spells = tt }) in
    (t, r, h.size, h.room, h.spells, z)
