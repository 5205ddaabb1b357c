-- ===== src/Huginn/Edit.antt =====
-- The line editor of huginn.cpp, `read_line`. `sys_read` gives a byte or nothing; what it gives is a
-- list of events, one for each call, and where they end the shell still waits. The calls `sys_write` and
-- `sys_yield` are recorded in order. The history is the list of `hist_push`, and `line` the buffer of 64
-- bytes that the caller passes.
pub mod Typed
use hrafn_os.Prelude.{
  ◌>>=◌, ℕ, zero, suc, ◌+◌, ◌-◌, Bool, true, false, not, ◌||◌, List, [], ◌∷◌, ◌++◌, Option, none,
  some, ltb, leb, ◌==◌, if◌then◌else◌, get_or, length,
}

pub data Call : Type 0 where
  wrote : List ℕ → Call
  yielded : Call

pub record Editor : Type 0 where
  pub line : ℕ → ℕ
  pub n : ℕ
  pub hpos : ℕ
  pub calls : List Call

abbrev pub call : Call → Editor → Editor
call c e = record e { calls = e.calls ++ (c ∷ []) }

abbrev pub put : (ℕ → ℕ) → ℕ → ℕ → ℕ → ℕ
put m a v x = if x == a then v else m x

-- "\b \b"
abbrev pub rub_out : Call
rub_out = wrote (8 ∷ 32 ∷ 8 ∷ [])

-- `read_byte_bounded`; without an outcome it still waits
pub read_byte_bounded : ℕ → List (Option ℕ) → Editor → Option (Option ℕ × List (Option ℕ) × Editor)
read_byte_bounded zero es e = some (none, es, e)
read_byte_bounded (suc tries) [] e = none
read_byte_bounded (suc tries) (none ∷ es) e = read_byte_bounded tries es (call yielded e)
read_byte_bounded (suc tries) (some c ∷ es) e = some (some c, es, e)

abbrev pub max_tries : ℕ
max_tries = 20000

-- `while (n > 0) { sys_write(1, "\b \b", 3); n--; }`
pub erase_line : ℕ → Editor → Editor
erase_line zero e = record e { n = 0 }
erase_line (suc k) e = erase_line k (call rub_out e)

-- `while (hist[hpos][i] && i < 63) { line[i] = hist[hpos][i]; i++; }`
pub copy_line : ℕ → ℕ → List ℕ → (ℕ → ℕ) → ℕ × (ℕ → ℕ)
copy_line zero i cs line = (i, line)
copy_line (suc room) i [] line = (i, line)
copy_line (suc room) i (c ∷ cs) line = copy_line room (i + 1) cs (put line i c)

-- the bytes `line[i]`, `line[i + 1]`, …, `n` of them
pub text_from : ℕ → ℕ → (ℕ → ℕ) → List ℕ
text_from zero i line = []
text_from (suc n) i line = line i ∷ text_from n (i + 1) line

-- the line that an arrow key recalls; `up` is 'A' and down is 'B'
pub arrow : Bool → List (List ℕ) → Editor → Editor
arrow up hist e =
    let e1 = erase_line e.n e in
    let back = if ltb 0 e.hpos then e.hpos - 1 else e.hpos in
    let forth = if ltb e.hpos (length hist) then e.hpos + 1 else e.hpos in
    let hpos = if up then back else forth in
    let (i, line) = copy_line 63 0 (get_or hist hpos []) e1.line in
    if ltb hpos (length hist)
    then call (wrote (text_from i 0 line)) (record e1 { line = line; n = i; hpos = hpos })
    else record e1 { n = 0; hpos = hpos }

-- what follows an ESC
pub escape : List (List ℕ) → List (Option ℕ) → Editor → Option (List (Option ℕ) × Editor)
escape hist es e = do
  (a, es1, e1) ← read_byte_bounded max_tries es e
  elim a [
    | none ↦ some (es1, e1)
    | some c ↦
        let more = read_byte_bounded max_tries es1 e1 >>= λ (b, es2, e2). some (es2, second b e2) in
        if not (c == 91) then some (es1, e1) else more
  ]
  where
    second : Option ℕ → Editor → Editor
    second none e = e
    second (some b) e =
        if b == 65 then arrow true hist e else if b == 66 then arrow false hist e else e

-- `ch < ' '` on a signed `char`
abbrev pub is_control : ℕ → Bool
is_control ch = ltb ch 32 || leb 128 ch

-- any byte but ESC, CR and LF
unfoldable pub type_byte : ℕ → Editor → Editor
type_byte ch e =
    let echoed = call (wrote (ch ∷ [])) e in
    if ch == 8
    then (if ltb 0 e.n then call rub_out (record e { n = e.n - 1 }) else e)
    else if is_control ch
    then e
    else if ltb e.n 63
    then record echoed { line = put e.line e.n ch; n = e.n + 1 }
    else echoed

-- the loop of `read_line`; `none` is still waiting, or out of fuel
unfoldable pub read_line_from :
    ℕ → List (List ℕ) → List (Option ℕ) → Editor → Option (List (Option ℕ) × Editor)
read_line_from zero hist es e = none
read_line_from (suc fuel) hist [] e = none
read_line_from (suc fuel) hist (none ∷ es) e = read_line_from fuel hist es (call yielded e)
read_line_from (suc fuel) hist (some ch ∷ es) e =
    let ended = call (wrote (10 ∷ [])) e in
    let onward = read_line_from fuel hist es (type_byte ch e) in
    if ch == 27
    then (escape hist es e >>= λ (es1, e1). read_line_from fuel hist es1 e1)
    else if (ch == 13) || (ch == 10)
    then some (es, record ended { line = put e.line e.n 0 })
    else onward

unfoldable pub read_line :
    ℕ → List (List ℕ) → List (Option ℕ) → (ℕ → ℕ) → Option (List (Option ℕ) × Editor)
read_line fuel hist es line =
    read_line_from fuel hist es (record { line = line; n = 0; hpos = length hist; calls = [] })
