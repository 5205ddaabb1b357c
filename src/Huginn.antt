-- ===== src/Huginn.antt =====
-- huginn.cpp: the shell's path normaliser, its command history and the split of a line into words. A C
-- string is the list of its bytes without the NUL. `resolve_path` writes into a buffer of 128 bytes and
-- does not test its bound: here it gives `none` where it would write behind the buffer.
pub mod Edit
pub mod History
pub mod Names
pub mod Resolve
use hrafn_os.Munin.Path.{slash, skip_slashes, span}
use hrafn_os.Prelude.{
  ℕ, zero, suc, ◌+◌, ◌-◌, ◌*◌, ◌/◌, ◌%◌, ◌^◌, ◌≤◌, ◌<◌, min, max, ◌≡◌, ◌≢◌, refl, sym, ap, ◌∙◌, ◌↔◌,
  Bool, true, false, not, ◌&&◌, ◌||◌, inl, inr, ◌⊎◌, List, [], ◌∷◌, ◌++◌, map, Option, none, some,
  bit_and, bit_or, bit_xor, arith, ltb, leb, ◌==◌, ==_iff, ltb→lt, lt→ltb, leb→le, tests,
  Bool-cases, Option-cases, if◌then◌else◌, get_or, get_elem?, set, take, drop, replicate, length,
  length-set, length-append, length-map, length-take, length-drop, length-replicate,
  take-append-drop, get_elem?-set_self, get_elem?-set_ne, get_or-set_self, get_or-set_ne,
  get_or-beyond, set-beyond, get_or-replicate,
}

-- '.'
abbrev pub dot : ℕ
dot = 46

-- `streq`
pub streq : List ℕ → List ℕ → Bool
streq [] [] = true
streq [] (c ∷ cs) = false
streq (c ∷ cs) [] = false
streq (c ∷ cs) (d ∷ ds) = let rest = streq cs ds in if c == d then rest else false

-- `while (olen > 1 && out[olen - 1] != '/') olen--`, on a length
unfoldable pub back_to_slash : ℕ → List ℕ → ℕ
back_to_slash zero out = zero
back_to_slash (suc n) out =
    let rest = back_to_slash n out in
    if ltb 0 n && not (get_or out n 0 == slash) then rest else suc n

-- ".." on the output: its last component goes, and the slash before it unless that is the root's
unfoldable pub pop_component : List ℕ → List ℕ
pop_component out =
    let n = back_to_slash (length out) out in
    if ltb 1 (length out) then take (if ltb 1 n then n - 1 else n) out else out

-- A string in the buffer, where it and its NUL fit in 128 bytes.
abbrev pub in_buffer : List ℕ → Option (List ℕ)
in_buffer s = if ltb (length s) 128 then some s else none

-- one component of the input on the output
unfoldable pub add_component : List ℕ → List ℕ → Option (List ℕ)
add_component name out =
    if (length name == 1) && (get_or name 0 0 == dot)
    then some out
    else if (length name == 2) && ((get_or name 0 0 == dot) && (get_or name 1 0 == dot))
    then some (pop_component out)
    else in_buffer
        ((if get_or out (length out - 1) 0 == slash then out else out ++ (slash ∷ [])) ++ name)

-- the loop of `resolve_path`; every round takes at least one character
unfoldable pub resolve_from : ℕ → List ℕ → List ℕ → Option (List ℕ)
resolve_from zero cs out = some out
resolve_from (suc fuel) cs out = elim (skip_slashes cs) [
  | [] ↦ some out
  | c ∷ cs' ↦
      let (name, rest) = span (c ∷ cs') in
      elim (add_component name out) [ none ↦ none | some out' ↦ resolve_from fuel rest out' ]
]

-- the buffer when the loop is done
abbrev pub or_root : List ℕ → List ℕ
or_root out = if length out == 0 then slash ∷ [] else out

unfoldable pub resolve_path : List ℕ → List ℕ → Option (List ℕ)
resolve_path cwd path =
    let start = in_buffer (if get_or path 0 0 == slash then slash ∷ [] else cwd) in
    elim start [
      | none ↦ none
      | some out ↦ elim (resolve_from (length path + 1) path out) [
        | none ↦ none
        | some out' ↦ some (or_root out')
      ]
    ]

-- HIST_N
abbrev pub hist_n : ℕ
hist_n = 16

-- `hist_push` on `hist[0 .. hist_count)`, oldest first
pub hist_push : List ℕ → List (List ℕ) → List (List ℕ)
hist_push s hist =
    let count = length hist in
    let room = if count == hist_n then drop 1 hist else hist in
    if length s == 0
    then hist
    else if ltb 0 count && streq s (get_or hist (count - 1) [])
    then hist
    else room ++ (take 63 s ∷ [])

-- `while (line[p] == ' ') p++`
pub skip_spaces : List ℕ → List ℕ
skip_spaces [] = []
skip_spaces (c ∷ cs) = let rest = skip_spaces cs in if c == 32 then rest else c ∷ cs

-- `while (line[p] && line[p] != ' ') p++`
pub word : List ℕ → List ℕ × List ℕ
word [] = ([], [])
word (c ∷ cs) = let (w, rest) = word cs in if c == 32 then ([], c ∷ cs) else (c ∷ w, rest)

-- the split of a line into at most `n` words; the space that ends a word becomes its NUL
pub argv_from : ℕ → List ℕ → List (List ℕ)
argv_from zero cs = []
argv_from (suc n) cs = elim (skip_spaces cs) [
  | [] ↦ []
  | c ∷ cs' ↦ let (w, rest) = word (c ∷ cs') in w ∷ argv_from n (drop 1 rest)
]

pub argv : List ℕ → List (List ℕ)
argv line = argv_from 16 line
