-- ===== src/Huginn/Names.antt =====
-- Absolute paths as stacks of names, for `resolve_path` of huginn.cpp: what a component of the input does
-- to the stack, and that the output buffer follows it.
use hrafn_os.Munin.Path.{slash}
use hrafn_os.Huginn.{dot, back_to_slash, pop_component, add_component}
use hrafn_os.Prelude.{
  ℕ, zero, suc, ◌+◌, ◌-◌, ◌≤◌, ◌<◌, ◌≡◌, refl, true, false, ◌&&◌, List, [], ◌∷◌, ◌++◌, some, arith,
  ltb, ◌==◌, Bool-cases, if◌then◌else◌, get_or, take, drop, length, length-append, ◌∙◌, inl, inr,
}

-- A component: it is not empty and has no slash.
unfoldable pub NoSlash : List ℕ → Type 0
NoSlash [] = Unit
NoSlash (c ∷ cs) = ((c == slash) ≡ false) × NoSlash cs

abbrev pub IsName : List ℕ → Type 0
IsName n = (1 ≤ length n) × NoSlash n

unfoldable pub AllNames : List (List ℕ) → Type 0
AllNames [] = Unit
AllNames (n ∷ ns) = IsName n × AllNames ns

-- The names of a path, the last one first, each behind a slash.
unfoldable pub spell : List (List ℕ) → List ℕ
spell [] = []
spell (n ∷ ns) = spell ns ++ slash ∷ n

-- The absolute path made of the names of a stack, "/" when there is none.
abbrev pub path_of : List (List ℕ) → List ℕ
path_of [] = slash ∷ []
path_of (n ∷ ns) = spell (n ∷ ns)

-- What a component does to the stack: "." nothing, ".." takes the last name off, and any other name goes
-- on top.
unfoldable pub edit : List ℕ → List (List ℕ) → List (List ℕ)
edit [] ns = [] ∷ ns
edit (c ∷ []) ns = if c == dot then ns else (c ∷ []) ∷ ns
edit (c ∷ d ∷ []) ns = if (c == dot) && (d == dot) then drop 1 ns else (c ∷ d ∷ []) ∷ ns
edit (c ∷ d ∷ e ∷ cs) ns = (c ∷ d ∷ e ∷ cs) ∷ ns

get_or-append_right :
    (p q : List ℕ) (i n : ℕ) → i ≡ n + length p → get_or (p ++ q) i 0 ≡ get_or q n 0
get_or-append_right [] q i n e = let k : i ≡ n = omega arith in rw k refl
get_or-append_right (x ∷ p) q zero n e = absurd (omega arith)
get_or-append_right (x ∷ p) q (suc i) n e = get_or-append_right p q i n (omega arith)

append_assoc : (p q r : List ℕ) → (p ++ q) ++ r ≡ p ++ (q ++ r)
append_assoc [] q r = refl
append_assoc (x ∷ p) q r = rw (append_assoc p q r) refl

take-append : (p q : List ℕ) (n : ℕ) → n ≡ length p → take n (p ++ q) ≡ p
take-append [] q zero e = refl
take-append [] q (suc n) e = absurd (omega arith)
take-append (x ∷ p) q zero e = absurd (omega arith)
take-append (x ∷ p) q (suc n) e = rw (take-append p q n (omega arith)) refl

NoSlash-at : (w : List ℕ) (i : ℕ) → NoSlash w → i < length w → (get_or w i 0 == slash) ≡ false
unfolding NoSlash
NoSlash-at [] i h l = absurd (omega arith)
NoSlash-at (c ∷ w) zero h l = h.0
NoSlash-at (c ∷ w) (suc i) h l = NoSlash-at w i h.1 (omega arith)

-- From the end of the last component the scan goes back to the slash before it.
back_to_slash-name :
    (p w : List ℕ) (k n : ℕ)
    → NoSlash w
    → k ≤ length w
    → n ≡ k + length p
    → back_to_slash (suc n) (p ++ slash ∷ w) ≡ suc (length p)
unfolding back_to_slash
back_to_slash-name p w zero n h l e =
    let g : get_or (p ++ slash ∷ w) n 0 ≡ slash = get_or-append_right p (slash ∷ w) n 0 e in
    let q : n ≡ length p = omega arith in
    elim (Bool-cases (ltb 0 n)) [ inl z ↦ rw (z, g) (rw q refl) | inr z ↦ rw z (rw q refl) ]
back_to_slash-name p w (suc k) zero h l e = absurd (omega arith)
back_to_slash-name p w (suc k) (suc n) h l e =
    let g : get_or (p ++ slash ∷ w) (suc n) 0 ≡ get_or w k 0 =
      get_or-append_right p (slash ∷ w) (suc n) (suc k) e in
    let z : ltb 0 (suc n) ≡ true = ground arith in
    rw (z, g, NoSlash-at w k h (omega arith))
      (back_to_slash-name p w k n h (omega arith) (omega arith))

pub length-spell :
    (n : List ℕ) (ns : List (List ℕ)) → length (spell (n ∷ ns)) ≡ length (spell ns) + suc (length n)
unfolding spell
length-spell n ns = length-append (spell ns) (slash ∷ n)

pop_component-path_of :
    (ns : List (List ℕ)) → AllNames ns → pop_component (path_of ns) ≡ path_of (drop 1 ns)
unfolding pop_component AllNames spell
pop_component-path_of [] h = refl
pop_component-path_of (n ∷ []) h =
    let l = h.0.0 in
    let b = back_to_slash-name [] n (length n) (length n) h.0.1 (omega arith) (omega arith) in
    let z : ltb 1 (suc (length n)) ≡ true = ground arith in rw (z, b) refl
pop_component-path_of (n ∷ m ∷ ms) h =
    let p = spell ms ++ slash ∷ m in
    let l = h.0.0 in
    let lm = length-append (spell ms) (slash ∷ m) in
    let e : length (p ++ slash ∷ n) ≡ suc (length n + length p) =
      length-append p (slash ∷ n) ∙ omega arith in
    let b =
      back_to_slash-name p n (length n) (length n + length p) h.0.1 (omega arith) (omega arith) in
    let z : ltb 1 (suc (length n + length p)) ≡ true = ground arith in
    let y : ltb 1 (suc (length p)) ≡ true = ground arith in
    rw (e, z, b, y) (take-append p (slash ∷ n) (suc (length p) - 1) (omega arith))

-- A name that goes on a path.
push-path_of :
    (n : List ℕ) (ns : List (List ℕ))
    → AllNames ns
    → (if get_or (path_of ns) (length (path_of ns) - 1) 0 == slash
          then path_of ns
          else path_of ns ++ (slash ∷ []))
        ++ n
      ≡ path_of (n ∷ ns)
unfolding AllNames spell
push-path_of n [] h = refl
push-path_of n (m ∷ ms) h =
    let len = length-append (spell ms) (slash ∷ m) in
    let lm = h.0.0 in
    let g : get_or (spell ms ++ slash ∷ m) (length (spell ms ++ slash ∷ m) - 1) 0
        ≡ get_or (slash ∷ m) (length m) 0 =
      get_or-append_right (spell ms) (slash ∷ m) _ (length m) (omega arith) in
    rw (g, last m h.0) (append_assoc (spell ms ++ slash ∷ m) (slash ∷ []) n)
  where
    last : (w : List ℕ) → IsName w → (get_or (slash ∷ w) (length w) 0 == slash) ≡ false
    last [] i = absurd (let l = i.0 in omega arith)
    last (c ∷ w) i = NoSlash-at (c ∷ w) (length w) i.1 (omega arith)

edit-name :
    (n : List ℕ) (ns : List (List ℕ))
    → ((length n == 1) && (get_or n 0 0 == dot)) ≡ false
    → ((length n == 2) && ((get_or n 0 0 == dot) && (get_or n 1 0 == dot))) ≡ false
    → edit n ns ≡ n ∷ ns
unfolding edit
edit-name [] ns a b = refl
edit-name (c ∷ []) ns a b = let e : (c == dot) ≡ false = ground arith in rw e refl
edit-name (c ∷ d ∷ []) ns a b =
    let e : ((c == dot) && (d == dot)) ≡ false = ground arith in rw e refl
edit-name (c ∷ d ∷ e ∷ cs) ns a b = refl

edit-dot :
    (n : List ℕ) (ns : List (List ℕ))
    → ((length n == 1) && (get_or n 0 0 == dot)) ≡ true
    → edit n ns ≡ ns
unfolding edit
edit-dot [] ns a = absurd (ground arith)
edit-dot (c ∷ []) ns a = let e : (c == dot) ≡ true = ground arith in rw e refl
edit-dot (c ∷ d ∷ cs) ns a = absurd (ground arith)

edit-dots :
    (n : List ℕ) (ns : List (List ℕ))
    → ((length n == 2) && ((get_or n 0 0 == dot) && (get_or n 1 0 == dot))) ≡ true
    → edit n ns ≡ drop 1 ns
unfolding edit
edit-dots [] ns a = absurd (ground arith)
edit-dots (c ∷ []) ns a = absurd (ground arith)
edit-dots (c ∷ d ∷ []) ns a = let e : ((c == dot) && (d == dot)) ≡ true = ground arith in rw e refl
edit-dots (c ∷ d ∷ e ∷ cs) ns a = absurd (ground arith)

length-path_of :
    (n : List ℕ) (ns : List (List ℕ))
    → length (path_of (n ∷ ns)) ≤ length (path_of ns) + suc (length n)
unfolding spell
length-path_of n [] = omega arith
length-path_of n (m ∷ ms) = let e = length-spell n (m ∷ ms) in omega arith

-- In the buffer a component does what it does to the stack, if there is room for a slash and the name.
pub add_component-edit :
    (n : List ℕ) (ns : List (List ℕ))
    → IsName n
    → AllNames ns
    → length (path_of ns) + suc (length n) < 128
    → add_component n (path_of ns) ≡ some (path_of (edit n ns))
unfolding add_component
add_component-edit n ns i a l = elim (Bool-cases ((length n == 1) && (get_or n 0 0 == dot))) [
  | inl d ↦ rw (d, edit-dot n ns d) refl
  | inr d ↦
      elim (Bool-cases ((length n == 2) && ((get_or n 0 0 == dot) && (get_or n 1 0 == dot)))) [
        | inl e ↦ rw (d, e, edit-dots n ns e, pop_component-path_of ns a) refl
        | inr e ↦
            let len = length-path_of n ns in
            let f : ltb (length (path_of (n ∷ ns))) 128 ≡ true = ground arith in
            rw (d, e, edit-name n ns d e, push-path_of n ns a, f) refl
      ]
]

pub edit-cases :
    (n : List ℕ) (ns : List (List ℕ))
    → IsName n
    → AllNames ns
    → AllNames (edit n ns) × (length (path_of (edit n ns)) ≤ length (path_of ns) + suc (length n))
unfolding AllNames
edit-cases n ns i a = elim (Bool-cases ((length n == 1) && (get_or n 0 0 == dot))) [
  | inl d ↦ rw (edit-dot n ns d) (a, omega arith)
  | inr d ↦
      elim (Bool-cases ((length n == 2) && ((get_or n 0 0 == dot) && (get_or n 1 0 == dot)))) [
        | inl e ↦ rw (edit-dots n ns e) (dropped n ns a)
        | inr e ↦ rw (edit-name n ns d e) ((i, a), length-path_of n ns)
      ]
]
  where
    dropped :
        (n : List ℕ) (ns : List (List ℕ))
        → AllNames ns
        → AllNames (drop 1 ns)
          × (length (path_of (drop 1 ns)) ≤ length (path_of ns) + suc (length n))
    dropped n [] a = (a, omega arith)
    dropped n (m ∷ []) a = (a.1, let e = length-spell m [] in omega arith)
    dropped n (m ∷ p ∷ ms) a = (a.1, let e = length-spell m (p ∷ ms) in omega arith)
