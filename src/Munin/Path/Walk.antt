-- ===== src/Munin/Path/Walk.antt =====
-- `resolve_n` of kernel/munin.cpp follows the components of a path, one directory after the other.
use hrafn_os.Munin.Store.{Fs, inode_dir}
use hrafn_os.Munin.Dir.{dir_lookup}
use hrafn_os.Munin.Path.{slash, root, skip_slashes, span, walk, resolve_n}
use hrafn_os.Prelude.{
  ℕ, zero, suc, ◌+◌, ◌≤◌, ◌<◌, ◌≡◌, refl, sym, ap, ◌∙◌, false, not, inl, inr, List, [], ◌∷◌, ◌++◌,
  Option, none, some, arith, ◌==◌, Bool-cases, if◌then◌else◌, length,
}

-- A piece counts as a component unless it is empty.
abbrev pub keep : List ℕ → List (List ℕ) → List (List ℕ)
keep [] ws = ws
keep (c ∷ cs) ws = (c ∷ cs) ∷ ws

-- what stands before the first slash, and the components after it
unfoldable pub split : List ℕ → List ℕ × List (List ℕ)
split [] = ([], [])
split (c ∷ cs) = let (w, ws) = split cs in if c == slash then ([], keep w ws) else (c ∷ w, ws)

-- The nonempty pieces between slashes.
unfoldable pub components : List ℕ → List (List ℕ)
components cs = keep (split cs).0 (split cs).1

-- From directory `cur`, each name looked up in the directory that the names before it lead to.
pub descend : List (List ℕ) → ℕ → Fs → Option ℕ
descend [] cur fs = some cur
descend (name ∷ names) cur fs =
    if not ((fs.inodes cur).kind == inode_dir)
    then none
    else elim (dir_lookup cur name fs) [ none ↦ none | some next ↦ descend names next fs ]

pub components-slash : (cs : List ℕ) → components (slash ∷ cs) ≡ components cs
unfolding components split
components-slash cs = refl

pub components-skip_slashes : (cs : List ℕ) → components (skip_slashes cs) ≡ components cs
unfolding skip_slashes
components-skip_slashes [] = refl
components-skip_slashes (c ∷ cs) = elim (Bool-cases (c == slash)) [
  | inl e ↦
      let q : c ≡ slash = ground arith in
      rw e (
        components-skip_slashes cs
        ∙ sym (components-slash cs)
        ∙ ap (λ x. components (x ∷ cs)) (sym q))
  | inr e ↦ rw e refl
]

-- What is left after the slashes is empty or starts with another character.
unfoldable pub Starts : List ℕ → Type 0
Starts [] = Unit
Starts (c ∷ cs) = (c == slash) ≡ false

pub skip_slashes-Starts : (cs : List ℕ) → Starts (skip_slashes cs)
unfolding skip_slashes Starts
skip_slashes-Starts [] = tt
skip_slashes-Starts (c ∷ cs) = elim (Bool-cases (c == slash)) [
  | inl e ↦ rw e (skip_slashes-Starts cs)
  | inr e ↦ rw (e, Starts) e
]

pub length-skip_slashes : (cs : List ℕ) → length (skip_slashes cs) ≤ length cs
unfolding skip_slashes
length-skip_slashes [] = omega arith
length-skip_slashes (c ∷ cs) = elim (Bool-cases (c == slash)) [
  | inl e ↦ rw e (let t = length-skip_slashes cs in omega arith)
  | inr e ↦ rw e (omega arith)
]

pub length-span : (cs : List ℕ) → length (span cs).1 ≤ length cs
unfolding span
length-span [] = omega arith
length-span (c ∷ cs) = elim (Bool-cases (c == slash)) [
  | inl e ↦ rw e (omega arith)
  | inr e ↦ rw e (let t = length-span cs in omega arith)
]

-- `span` cuts off the first piece.
pub split-span :
    (cs : List ℕ) → ((split cs).0 ≡ (span cs).0) × ((split cs).1 ≡ components (span cs).1)
unfolding span split components
split-span [] = (refl, refl)
split-span (c ∷ cs) = elim (Bool-cases (c == slash)) [
  | inl e ↦
      let q : c ≡ slash = ground arith in
      rw e (refl, sym (ap (λ x. components (x ∷ cs)) q ∙ components-slash cs))
  | inr e ↦ rw e (let t = split-span cs in (ap (λ w. c ∷ w) t.0, t.1))
]

-- A path that starts with a component is that component and the rest.
pub components-span :
    (c : ℕ) (cs : List ℕ)
    → (c == slash) ≡ false
    → components (c ∷ cs) ≡ (span (c ∷ cs)).0 ∷ components (span (c ∷ cs)).1
unfolding components span
components-span c cs e = from (split-span (c ∷ cs))
  where
    kept :
        keep (span (c ∷ cs)).0 (components (span (c ∷ cs)).1)
        ≡ (span (c ∷ cs)).0 ∷ components (span (c ∷ cs)).1
    kept = rw (span, e) refl

    from :
        ((split (c ∷ cs)).0 ≡ (span (c ∷ cs)).0)
          × ((split (c ∷ cs)).1 ≡ components (span (c ∷ cs)).1)
        → keep (split (c ∷ cs)).0 (split (c ∷ cs)).1
          ≡ (span (c ∷ cs)).0 ∷ components (span (c ∷ cs)).1
    from (a, b) = rw (a, b) kept

pub length-rest :
    (c : ℕ) (cs : List ℕ) → (c == slash) ≡ false → length (span (c ∷ cs)).1 ≤ length cs
unfolding span
length-rest c cs e = rw (span, e) (length-span cs)

follow_ext :
    (o : Option ℕ) (f g : ℕ → Option ℕ)
    → ((n : ℕ) → f n ≡ g n)
    → elim o [ none ↦ none | some n ↦ f n ] ≡ elim o [ none ↦ none | some n ↦ g n ]
follow_ext none f g h = refl
follow_ext (some n) f g h = h n

-- one round of `walk`, on what the slashes leave
round :
    (fuel : ℕ) (cur : ℕ) (fs : Fs)
    → ((cs : List ℕ) (cur' : ℕ)
        → length cs < fuel
        → walk fuel cs cur' fs ≡ descend (components cs) cur' fs)
    → (ss : List ℕ) → Starts ss
    → length ss ≤ fuel
    → elim ss [
      | [] ↦ some cur
      | c ∷ cs' ↦
          if not ((fs.inodes cur).kind == inode_dir)
          then none
          else elim (dir_lookup cur (span (c ∷ cs')).0 fs) [
            | none ↦ none
            | some next ↦ walk fuel (span (c ∷ cs')).1 next fs
          ]
    ]
      ≡ descend (components ss) cur fs
unfolding descend Starts components split
round fuel cur fs ih [] st l = refl
round fuel cur fs ih (c ∷ cs) st l =
    let len = length-rest c cs st in
    rw (components-span c cs st) (
      ap (λ x. if not ((fs.inodes cur).kind == inode_dir) then none else x)
        (follow_ext (dir_lookup cur (span (c ∷ cs)).0 fs) _ _
          (λ n. ih (span (c ∷ cs)).1 n (omega arith))))

-- With fuel above the number of characters the walk follows every component.
pub walk-descend :
    (fuel : ℕ) (cs : List ℕ) (cur : ℕ) (fs : Fs)
    → length cs < fuel
    → walk fuel cs cur fs ≡ descend (components cs) cur fs
unfolding walk
walk-descend zero cs cur fs l = absurd (omega arith)
walk-descend (suc fuel) cs cur fs l =
    let len = length-skip_slashes cs in
    rw (← components-skip_slashes cs) (
      round fuel cur fs (λ cs' cur' l'. walk-descend fuel cs' cur' fs l') (skip_slashes cs)
        (skip_slashes-Starts cs) (omega arith))

-- A path that starts with a slash resolves to where its components lead from the root, each looked
-- up in the directory that the ones before it lead to: repeated and trailing slashes do not matter.
pub resolve_n-descend :
    (cs : List ℕ) (fs : Fs) → resolve_n (slash ∷ cs) fs ≡ descend (components cs) root fs
unfolding resolve_n
resolve_n-descend cs fs = walk-descend (length cs + 1) cs root fs (omega arith)

-- Names in sequence: the second list is followed from where the first one leads.
pub descend-append :
    (xs ys : List (List ℕ)) (cur : ℕ) (fs : Fs)
    → descend (xs ++ ys) cur fs
      ≡ elim (descend xs cur fs) [ none ↦ none | some next ↦ descend ys next fs ]
unfolding descend
descend-append [] ys cur fs = refl
descend-append (x ∷ xs) ys cur fs = elim (Bool-cases (not ((fs.inodes cur).kind == inode_dir))) [
  | inl e ↦ rw e refl
  | inr e ↦ rw e (from (λ n. descend-append xs ys n fs) (dir_lookup cur x fs))
]
  where
    from :
        ((n : ℕ)
          → descend (xs ++ ys) n fs
            ≡ elim (descend xs n fs) [ none ↦ none | some next ↦ descend ys next fs ])
        → (o : Option ℕ)
        → elim o [ none ↦ none | some next ↦ descend (xs ++ ys) next fs ]
          ≡ elim (elim o as (λ _. Option ℕ) [ none ↦ none | some next ↦ descend xs next fs ]) [
            | none ↦ none
            | some next ↦ descend ys next fs
          ]
    from ih none = refl
    from ih (some n) = ih n
