-- ===== src/Ramdisk.antt =====
-- kernel/ramdisk.cpp: the programs embedded in the kernel image, found by name. The addresses of their
-- images, which the linker sets, are the table's.
pub mod Names
use hrafn_os.Prelude.{
  ℕ, zero, suc, ◌+◌, ◌-◌, ◌*◌, ◌/◌, ◌%◌, ◌^◌, ◌≤◌, ◌<◌, min, max, ◌≡◌, ◌≢◌, refl, sym, ap, ◌∙◌, ◌↔◌,
  Bool, true, false, not, ◌&&◌, ◌||◌, inl, inr, ◌⊎◌, List, [], ◌∷◌, ◌++◌, map, Option, none, some,
  bit_and, bit_or, bit_xor, arith, ltb, leb, ◌==◌, ==_iff, ltb→lt, lt→ltb, leb→le, tests,
  Bool-cases, Option-cases, if◌then◌else◌, get_or, get_elem?, set, take, drop, replicate, length,
  length-set, length-append, length-map, length-take, length-drop, length-replicate,
  take-append-drop, get_elem?-set_self, get_elem?-set_ne, get_or-set_self, get_or-set_ne,
  get_or-beyond, set-beyond, get_or-replicate, get_or-append_left, get_or-append_self,
  get_or-drop_one, take-beyond,
}

-- `ramdisk_entry`
pub record Entry : Type 0 where
  pub name : List ℕ
  pub start : ℕ
  pub stop : ℕ  -- the source's `end`

-- `streq`: both strings are followed up to the first NUL or difference
pub same_string : List ℕ → List ℕ → Bool
same_string [] [] = true
same_string [] (d ∷ ds) = false
same_string (c ∷ cs) [] = false
same_string (c ∷ cs) (d ∷ ds) = let rest = same_string cs ds in if not (c == d) then false else rest

-- 0 is `nullptr`
pub ramdisk_lookup : List ℕ → List Entry → ℕ
ramdisk_lookup name [] = 0
ramdisk_lookup name (e ∷ es) =
    let rest = ramdisk_lookup name es in if same_string e.name name then e.start else rest

pub ramdisk_size : List ℕ → List Entry → ℕ
ramdisk_size name [] = 0
ramdisk_size name (e ∷ es) =
    let rest = ramdisk_size name es in if same_string e.name name then e.stop - e.start else rest

-- the names of `entries`: one, two, huginn
abbrev pub entry_names : List (List ℕ)
entry_names =
    (111 ∷ 110 ∷ 101 ∷ []) ∷ (116 ∷ 119 ∷ 111 ∷ []) ∷ (104 ∷ 117 ∷ 103 ∷ 105 ∷ 110 ∷ 110 ∷ []) ∷ []

-- `ramdisk_get`
pub ramdisk_get : ℕ → List Entry → Option Entry
ramdisk_get i entries = get_elem? entries i
