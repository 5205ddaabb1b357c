-- ===== src/Ramdisk/Names.antt =====
-- Lookup in kernel/ramdisk.cpp is by name: the first entry of that name.
use mathlib.Core.Option.{some-injective}
use hrafn_os.Ramdisk.{Entry, same_string, ramdisk_lookup, ramdisk_size}
use hrafn_os.Prelude.{
  ℕ, zero, suc, ◌-◌, ◌<◌, ◌≡◌, ◌≢◌, refl, ap, ◌↔◌, true, inl, inr, List, [], ◌∷◌, some, arith, ◌==◌,
  Bool-cases, get_or, get_elem?, drop,
}

pub same_string_iff : (a b : List ℕ) → (same_string a b ≡ true) ↔ (a ≡ b)
unfolding same_string
same_string_iff [] [] = (λ _. refl, λ _. refl)
same_string_iff [] (c ∷ cs) = ((λ e. ground arith), (λ e. ground arith))
same_string_iff (c ∷ cs) [] = ((λ e. ground arith), (λ e. ground arith))
same_string_iff (c ∷ cs) (d ∷ ds) = elim (Bool-cases (c == d)) [
  | inl e ↦ rw e (
    (λ q. let t = (same_string_iff cs ds).0 q in let cd : c ≡ d = ground arith in rw (cd, t) refl),
    (λ q. (same_string_iff cs ds).1 (ap (λ xs. drop 1 xs) q)),
  )
  | inr e ↦ rw e ((λ q. ground arith), (λ q. let cd = ap (λ xs. get_or xs 0 0) q in ground arith))
]

-- No entry before number `i` has the name of entry `i`.
abbrev pub FirstOf : List Entry → ℕ → Entry → Type 0
FirstOf es i e =
    (get_elem? es i ≡ some e)
    × ((j : ℕ) (d : Entry) → j < i → get_elem? es j ≡ some d → d.name ≢ e.name)

-- A name's image starts where the first entry of that name says, and has the size that this entry
-- says.
pub ramdisk_lookup-FirstOf :
    (es : List Entry) (i : ℕ) (e : Entry)
    → FirstOf es i e
    → (ramdisk_lookup e.name es ≡ e.start) × (ramdisk_size e.name es ≡ e.stop - e.start)
unfolding ramdisk_lookup ramdisk_size
ramdisk_lookup-FirstOf [] i e (at, low) = absurd (ground arith)
ramdisk_lookup-FirstOf (d ∷ es) zero e (at, low) =
    let q : d ≡ e = some-injective d e at in
    let t : same_string d.name e.name ≡ true =
      (same_string_iff d.name e.name).1 (ap (λ x. x.name) q) in
    rw t (ap (λ x. x.start) q, ap (λ x. x.stop - x.start) q)
ramdisk_lookup-FirstOf (d ∷ es) (suc i) e (at, low) =
    elim (Bool-cases (same_string d.name e.name)) [
      | inl t ↦ absurd (low 0 d (omega arith) refl ((same_string_iff d.name e.name).0 t))
      | inr t ↦ rw t (ramdisk_lookup-FirstOf es i e (at, λ j x l q. low (suc j) x (omega arith) q))
    ]
