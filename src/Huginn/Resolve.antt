-- ===== src/Huginn/Resolve.antt =====
-- `resolve_path` of huginn.cpp applies the components of its input to the names of the path it starts from,
-- one after the other.
use hrafn_os.Munin.Path.{slash, skip_slashes, span}
use hrafn_os.Munin.Path.Walk.{
  components, split, keep, components-skip_slashes, components-span, Starts, skip_slashes-Starts,
  length-skip_slashes, length-rest,
}
use hrafn_os.Huginn.{add_component, resolve_from, resolve_path, in_buffer, or_root}
use hrafn_os.Huginn.Names.{
  NoSlash, IsName, AllNames, path_of, edit, add_component-edit, length-spell, edit-cases,
  length-spell,
}
use mathlib.Core.Path.{subst}
use hrafn_os.Prelude.{
  ℕ, zero, suc, ◌+◌, ◌≤◌, ◌<◌, ◌≡◌, refl, true, false, inl, inr, List, [], ◌∷◌, none, some, arith,
  ltb, ◌==◌, Bool-cases, if◌then◌else◌, get_or, length,
}

-- The components on a stack of names, from left to right.
unfoldable pub edits : List (List ℕ) → List (List ℕ) → List (List ℕ)
edits [] ns = ns
edits (n ∷ more) ns = edits more (edit n ns)

-- what components take in the buffer at most
unfoldable pub cost : List (List ℕ) → ℕ
cost [] = 0
cost (n ∷ ns) = suc (length n) + cost ns

keep-AllNames : (w : List ℕ) (ws : List (List ℕ)) → NoSlash w → AllNames ws → AllNames (keep w ws)
unfolding AllNames
keep-AllNames [] ws h k = k
keep-AllNames (c ∷ w) ws h k = ((omega arith, h), k)

split-AllNames : (cs : List ℕ) → NoSlash (split cs).0 × AllNames (split cs).1
unfolding split NoSlash AllNames
split-AllNames [] = (tt, tt)
split-AllNames (c ∷ cs) =
    let (a, b) = split-AllNames cs in
    elim (Bool-cases (c == slash)) [
      | inl e ↦ rw e (tt, keep-AllNames _ _ a b)
      | inr e ↦ rw e ((e, a), b)
    ]

pub components-AllNames : (cs : List ℕ) → AllNames (components cs)
unfolding components
components-AllNames cs = let (a, b) = split-AllNames cs in keep-AllNames _ _ a b

cost-keep : (w : List ℕ) (ws : List (List ℕ)) → cost (keep w ws) ≤ suc (length w) + cost ws
unfolding cost
cost-keep [] ws = omega arith
cost-keep (c ∷ w) ws = omega arith

cost-split : (cs : List ℕ) → length (split cs).0 + cost (split cs).1 ≤ length cs
unfolding split cost
cost-split [] = omega arith
cost-split (c ∷ cs) =
    let h = cost-split cs in
    elim (Bool-cases (c == slash)) [
      | inl e ↦ let k = cost-keep (split cs).0 (split cs).1 in rw e (omega arith)
      | inr e ↦ rw e (omega arith)
    ]

cost-components : (cs : List ℕ) → cost (components cs) ≤ suc (length cs)
unfolding components
cost-components cs =
    let h = cost-split cs in let k = cost-keep (split cs).0 (split cs).1 in omega arith

length-edits :
    (names ns : List (List ℕ))
    → AllNames names
    → AllNames ns
    → AllNames (edits names ns)
      × (length (path_of (edits names ns)) ≤ length (path_of ns) + cost names)
unfolding edits cost AllNames
length-edits [] ns h k = (k, omega arith)
length-edits (n ∷ names) ns h k =
    let (a, l) = edit-cases n ns h.0 k in
    let (b, m) = length-edits names (edit n ns) h.1 a in (b, omega arith)

round :
    (fuel : ℕ) (ns : List (List ℕ))
    → ((cs : List ℕ) (ns' : List (List ℕ))
        → length cs < fuel
        → AllNames ns'
        → length (path_of ns') + cost (components cs) < 128
        → resolve_from fuel cs (path_of ns') ≡ some (path_of (edits (components cs) ns')))
    → (ss : List ℕ) → Starts ss
    → length ss ≤ fuel
    → AllNames ns
    → length (path_of ns) + cost (components ss) < 128
    → elim ss [
      | [] ↦ some (path_of ns)
      | c ∷ cs' ↦ elim (add_component (span (c ∷ cs')).0 (path_of ns)) [
        | none ↦ none
        | some out ↦ resolve_from fuel (span (c ∷ cs')).1 out
      ]
    ]
      ≡ some (path_of (edits (components ss) ns))
unfolding Starts components split edits AllNames cost
round fuel ns ih [] st l a room = refl
round fuel ns ih (c ∷ cs) st l a room =
    let len = length-rest c cs st in
    let n = (span (c ∷ cs)).0 in
    let rest = (span (c ∷ cs)).1 in
    let e : components (c ∷ cs) ≡ n ∷ components rest = components-span c cs st in
    let k = components-AllNames (c ∷ cs) in
    let i : IsName n = first-IsName e k in
    let r : length (path_of ns) + (suc (length n) + cost (components rest)) < 128 =
      first-cost (length (path_of ns)) e room in
    let (b, m) = edit-cases n ns i a in
    let add = add_component-edit n ns i a (omega arith) in
    rw (e, add) (ih rest (edit n ns) (omega arith) b (omega arith))
  where
    first-IsName :
        {all : List (List ℕ)} {n : List ℕ} {ns : List (List ℕ)}
        → all ≡ n ∷ ns
        → AllNames all
        → IsName n
    first-IsName e h = let k = subst AllNames e h in k.0

    first-cost :
        {all : List (List ℕ)} {n : List ℕ} {ns : List (List ℕ)} (m : ℕ)
        → all ≡ n ∷ ns
        → m + cost all < 128
        → m + (suc (length n) + cost ns) < 128
    first-cost m e h = subst (λ x. m + cost x < 128) e h

resolve_from-edits :
    (fuel : ℕ) (cs : List ℕ) (ns : List (List ℕ))
    → length cs < fuel
    → AllNames ns
    → length (path_of ns) + cost (components cs) < 128
    → resolve_from fuel cs (path_of ns) ≡ some (path_of (edits (components cs) ns))
unfolding resolve_from
resolve_from-edits zero cs ns l a room = absurd (omega arith)
resolve_from-edits (suc fuel) cs ns l a room =
    let len = length-skip_slashes cs in
    let e = components-skip_slashes cs in
    let room' : length (path_of ns) + cost (components (skip_slashes cs)) < 128 = rw e room in
    rw (← e) (
      round fuel ns (λ cs' ns' l' a' r'. resolve_from-edits fuel cs' ns' l' a' r') (skip_slashes cs)
        (skip_slashes-Starts cs) (omega arith) a room')

or_root-path_of : (ns : List (List ℕ)) → or_root (path_of ns) ≡ path_of ns
or_root-path_of [] = refl
or_root-path_of (n ∷ ns) =
    let l = length-spell n ns in
    let e : (length (path_of (n ∷ ns)) == 0) ≡ false = ground arith in rw e refl

path_of-nonempty : (ns : List (List ℕ)) → 1 ≤ length (path_of ns)
path_of-nonempty [] = omega arith
path_of-nonempty (n ∷ ns) = let l = length-spell n ns in omega arith

resolved :
    (ns : List (List ℕ)) (path : List ℕ)
    → AllNames ns
    → length (path_of ns) + length path < 127
    → let names = edits (components path) ns in
      (elim (in_buffer (path_of ns)) [
        | none ↦ none
        | some out ↦ elim (resolve_from (length path + 1) path out) [
          | none ↦ none
          | some out' ↦ some (or_root out')
        ]
      ]
        ≡ some (path_of names))
      × (length (path_of names) < 128)
      × AllNames names
resolved ns path a l =
    let k = cost-components path in
    let b = length-edits (components path) ns (components-AllNames path) a in
    let fits : ltb (length (path_of ns)) 128 ≡ true = ground arith in
    let r = resolve_from-edits (length path + 1) path ns (omega arith) a (omega arith) in
    (
      rw (fits, r, or_root-path_of (edits (components path) ns)) refl,
      let m = b.1 in omega arith,
      b.0,
    )

-- A path is resolved from the root where it starts with a slash, and otherwise from the working
-- directory, a stack of names: each component that is "." changes nothing, ".." takes the last name off,
-- and any other one is put on. The outcome is the absolute path of the names that are left, and fits the
-- buffer; its names are not empty and have no slash. The working directory, of such names, and the path
-- together have at most 126 characters.
pub resolve_path-edits :
    (ns : List (List ℕ)) (path : List ℕ)
    → AllNames ns
    → length (path_of ns) + length path < 127
    → let names = edits (components path) (if get_or path 0 0 == slash then [] else ns) in
      (resolve_path (path_of ns) path ≡ some (path_of names))
      × (length (path_of names) < 128)
      × AllNames names
unfolding resolve_path AllNames
resolve_path-edits ns path a l = elim (Bool-cases (get_or path 0 0 == slash)) [
  | inl s ↦ let k = path_of-nonempty ns in rw (resolve_path, s) (resolved [] path tt (omega arith))
  | inr s ↦ rw (resolve_path, s) (resolved ns path a l)
]
