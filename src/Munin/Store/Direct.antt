-- ===== src/Munin/Store/Direct.antt =====
-- The direct blocks of kernel/munin.cpp: no two live inodes share one, each is marked used, and mapping
-- one on demand changes no file's content.
use hrafn_os.Bitmap.{bitmap_set}
use hrafn_os.Bitmap.Laws.{bitmap_test-set, bitmap_set-IsBytes, length-bitmap_set}
use hrafn_os.Munin.Store.{
  Fs, Inode, no_block, inode_free, alloc_block, filled_block, direct_block, set_inode, write,
}
use hrafn_os.Munin.Store.Alloc.{HasBits, taken, Full, BlockOutcome, alloc_block-BlockOutcome}
use hrafn_os.Prelude.{
  ℕ, ◌/◌, ◌%◌, ◌<◌, ◌≡◌, ◌≢◌, refl, sym, ap, ◌∙◌, true, false, ◌||◌, inl, inr, ◌⊎◌, Option, none,
  some, arith, ◌==◌, ==_iff, Bool-cases, if◌then◌else◌,
}

abbrev pub Live : Fs → ℕ → Type 0
Live fs i = (fs.inodes i).kind ≢ inode_free

unfoldable pub ptr : Fs → ℕ → ℕ → ℕ
ptr fs i b = (fs.inodes i).blocks b

-- The direct pointers of live inodes lead to used blocks of the region, and to different ones.
pub record Sound (fs : Fs) : Type 0 where
  pub bits : HasBits fs
  pub inside :
      (i b : ℕ)
      → Live fs i
      → b < 8
      → ptr fs i b ≢ no_block
      → (ptr fs i b < 512) × (taken fs (ptr fs i b) ≡ true)
  pub alone :
      (i j b c : ℕ)
      → Live fs i
      → Live fs j
      → b < 8
      → c < 8
      → ptr fs i b ≢ no_block
      → ptr fs i b ≡ ptr fs j c
      → (i ≡ j) × (b ≡ c)

-- The byte at position `pos` of the direct range of a file; a hole reads as 0.
pub byte_at : Fs → ℕ → ℕ → ℕ
byte_at fs i pos =
    if ptr fs i (pos / 512) == no_block then 0 else fs.bytes (ptr fs i (pos / 512)) (pos % 512)

-- The inode table but for block pointers.
pub record SameInodes (fs fs' : Fs) : Type 0 where
  pub kind : (i : ℕ) → (fs'.inodes i).kind ≡ (fs.inodes i).kind
  pub size : (i : ℕ) → (fs'.inodes i).size ≡ (fs.inodes i).size
  pub indirect : (i : ℕ) → (fs'.inodes i).indirect ≡ (fs.inodes i).indirect

-- Block `b` of inode `ino` is mapped to `blk`, with every file's content kept.
pub record Mapped (fs fs' : Fs) (ino b blk : ℕ) : Type 0 where
  pub sound : Sound fs'
  pub mapped : ptr fs' ino b ≡ blk
  pub is_block : blk ≢ no_block
  pub inodes : SameInodes fs fs'
  pub content : (i pos : ℕ) → Live fs i → pos < 4096 → byte_at fs' i pos ≡ byte_at fs i pos

abbrev pub MapOutcome : Fs → ℕ → ℕ → ℕ × Fs → Type 0
MapOutcome fs ino b (blk, fs') = ((blk ≡ no_block) × (fs' ≡ fs) × Full fs) ⊎ Mapped fs fs' ino b blk

SameInodes-refl : (fs : Fs) → SameInodes fs fs
SameInodes-refl fs = record { kind = λ i. refl; size = λ i. refl; indirect = λ i. refl }

-- the state after a fresh, zeroed block `blk` became block `b` of inode `ino`
grown : Fs → ℕ → ℕ → ℕ → Fs
grown fs ino b blk =
    let f = fs.inodes ino in
    let fs1 = record fs { used = bitmap_set fs.used blk; bytes = write fs.bytes blk (λ _. 0) } in
    set_inode fs1 ino (record f { blocks = write f.blocks b blk })

module _ (fs : Fs) (ino b blk : ℕ) (s : Sound fs) (hole : ptr fs ino b ≡ no_block) (lb : b < 8)
    (low : blk < 512) (was : taken fs blk ≡ false) (live : Live fs ino) where
  g : Fs
  g = grown fs ino b blk

  taken-grown : (j : ℕ) → taken g j ≡ ((blk == j) || taken fs j)
  unfolding g grown
  taken-grown j = let r = s.bits.room in bitmap_test-set fs.used blk j s.bits.bytes (omega arith)

  -- A pointer is the new one, or it is as it was.
  ptr-grown :
      (i c : ℕ)
      → ((i ≡ ino) × (c ≡ b) × (ptr g i c ≡ blk)) ⊎ (((i ≡ ino → c ≢ b)) × (ptr g i c ≡ ptr fs i c))
  unfolding g grown ptr
  ptr-grown i c = elim (Bool-cases (ino == i)) [
    | inl e ↦ elim (Bool-cases (b == c)) [
      | inl e' ↦ inl (ground arith, ground arith, ground arith)
      | inr e' ↦ inr ((λ _ q. ground arith), let ii : ino ≡ i = ground arith in ground arith)
    ]
    | inr e ↦ inr ((λ q _. ground arith), ground arith)
  ]

  kind-grown : (i : ℕ) → (g.inodes i).kind ≡ (fs.inodes i).kind
  unfolding g grown
  kind-grown i = ground arith

  bytes-grown : (p : ℕ) → g.bytes p ≡ (if blk == p then (λ _. 0) else fs.bytes p)
  unfolding g grown
  bytes-grown p = refl

  grown-SameInodes : SameInodes fs g
  unfolding g grown
  grown-SameInodes = record {
    kind = λ i. ground arith;
    size = λ i. ground arith;
    indirect = λ i. ground arith;
  }

  -- A block in use is not the fresh one.
  other : (i c : ℕ) → Live fs i → c < 8 → ptr fs i c ≢ no_block → ptr fs i c ≢ blk
  other i c l lc ne e =
      let t = (s.inside i c l lc ne).1 in let u : taken fs blk ≡ true = rw (← e) t in cc

  grown-inside :
      (i c : ℕ)
      → Live fs i
      → c < 8
      → ptr g i c ≢ no_block
      → (ptr g i c < 512) × (taken g (ptr g i c) ≡ true)
  grown-inside i c l lc ne = elim (ptr-grown i c) [
    | inl (_, _, e) ↦ rw e (low, ground (arith, taken-grown blk))
    | inr (_, e) ↦
        let old = s.inside i c l lc (λ q. ne (e ∙ q)) in
        rw e (old.0, ground (arith, old.1, taken-grown (ptr fs i c)))
  ]

  grown-alone :
      (i j c d : ℕ)
      → Live fs i
      → Live fs j
      → c < 8
      → d < 8
      → ptr g i c ≢ no_block
      → ptr g i c ≡ ptr g j d
      → (i ≡ j) × (c ≡ d)
  grown-alone i j c d li lj lc ld ne e = elim (ptr-grown i c) [
    | inl (ii, cc', e1) ↦ elim (ptr-grown j d) [
      | inl (jj, dd, e2) ↦ (ii ∙ sym jj, cc' ∙ sym dd)
      | inr (_, e2) ↦ absurd (other j d lj ld (λ q. ne (e ∙ e2 ∙ q)) (sym e2 ∙ sym e ∙ e1))
    ]
    | inr (_, e1) ↦ elim (ptr-grown j d) [
      | inl (jj, dd, e2) ↦ absurd (other i c li lc (λ q. ne (e1 ∙ q)) (sym e1 ∙ e ∙ e2))
      | inr (_, e2) ↦ s.alone i j c d li lj lc ld (λ q. ne (e1 ∙ q)) (sym e1 ∙ e ∙ e2)
    ]
  ]

  grown-content : (i pos : ℕ) → Live fs i → pos < 4096 → byte_at g i pos ≡ byte_at fs i pos
  unfolding byte_at
  grown-content i pos l lp = elim (ptr-grown i (pos / 512)) [
    | inl (ii, e', e) ↦
        let h : ptr fs i (pos / 512) ≡ no_block = rw (ii, e') hole in
        let nb : (blk == no_block) ≡ false = ground arith in
        rw (e, h, nb, bytes-grown blk) (ground arith)
    | inr (_, e) ↦ elim (Bool-cases (ptr fs i (pos / 512) == no_block)) [
      | inl z ↦ rw (e, z) refl
      | inr z ↦
          let ne : (blk == ptr fs i (pos / 512)) ≡ false =
            let o = other i (pos / 512) l (omega arith) (ground arith) in ground arith in
          rw (e, z, bytes-grown (ptr fs i (pos / 512)), ne) refl
    ]
  ]

  grown-HasBits : HasBits g
  unfolding g grown
  grown-HasBits = record {
    bytes = bitmap_set-IsBytes fs.used blk s.bits.bytes;
    room = length-bitmap_set fs.used blk ∙ s.bits.room;
  }

  grown-Mapped : Mapped fs g ino b blk
  grown-Mapped = record {
    sound = record {
      bits = grown-HasBits;
      inside = λ i c l lc ne. grown-inside i c (λ q. l (kind-grown i ∙ q)) lc ne;
      alone = λ i j c d li lj lc ld ne e.
          grown-alone i j c d (λ q. li (kind-grown i ∙ q)) (λ q. lj (kind-grown j ∙ q)) lc ld ne e;
    };
    mapped = elim (ptr-grown ino b) [ inl (_, _, e) ↦ e | inr (no', _) ↦ absurd (no' refl refl) ];
    is_block = omega arith;
    inodes = grown-SameInodes;
    content = grown-content;
  }

Mapped-already :
    (fs : Fs) (ino b : ℕ) → Sound fs → ptr fs ino b ≢ no_block → Mapped fs fs ino b (ptr fs ino b)
Mapped-already fs ino b s n = record {
  sound = s;
  mapped = refl;
  is_block = n;
  inodes = SameInodes-refl fs;
  content = λ i pos l lp. refl;
}

-- what `filled_block` leaves, from what `alloc_block` did
Filled : Fs → ℕ → ℕ × Fs → Type 0
Filled fs v (blk, fs') =
    ((blk ≡ no_block) × (fs' ≡ fs) × Full fs)
    ⊎ ((blk < 512)
        × (taken fs blk ≡ false)
        × (fs' ≡ record fs { used = bitmap_set fs.used blk; bytes = write fs.bytes blk (λ _. v) }))

filled_block-Filled : (fs : Fs) (v : ℕ) → Filled fs v (filled_block v fs)
unfolding Filled filled_block
filled_block-Filled fs v = from (alloc_block fs) (alloc_block-BlockOutcome fs)
  where
    from :
        (r : Option ℕ × Fs)
        → BlockOutcome fs r
        → Filled fs v (elim r.0 [
          | none ↦ (no_block, r.1)
          | some blk ↦ (blk, record r.1 { bytes = write r.1.bytes blk (λ _. v) })
        ])
    from (none, fs') (e, full) = inl (refl, e, full)
    from (some blk, fs') (low, was, _, e) =
        inr (low, was, ap {A = Fs} (λ h. record h { bytes = write h.bytes blk (λ _. v) }) e)

install : ℕ → ℕ → Inode → ℕ × Fs → ℕ × Fs
install ino b f made =
    if made.0 == no_block
    then made
    else (made.0, set_inode made.1 ino (record f { blocks = write f.blocks b made.0 }))

install-MapOutcome :
    (fs : Fs) (ino b : ℕ)
    → Sound fs
    → Live fs ino
    → b < 8
    → ptr fs ino b ≡ no_block
    → (r : ℕ × Fs) → Filled fs 0 r
    → MapOutcome fs ino b (install ino b (fs.inodes ino) r)
unfolding Filled install grown g
install-MapOutcome fs ino b s l lb h (blk, fs') (inl (e, e', full)) =
    rw ((==_iff blk no_block).1 e) (inl (e, e', full))
install-MapOutcome fs ino b s l lb h (blk, fs') (inr (low, was, e)) =
    let nb : (blk == no_block) ≡ false = ground arith in
    rw (nb, e) (inr (grown-Mapped fs ino b blk s h lb low was l))

-- On a sound region, mapping direct block `b` of a live inode, allocating it on demand: it fails
-- and changes nothing, and then all blocks are used; or the block is mapped, every live inode keeps
-- its kind, its size and the content of its direct range, and no two live inodes share a direct
-- block.
pub direct_block-MapOutcome :
    (fs : Fs) (ino b : ℕ)
    → Sound fs
    → Live fs ino
    → b < 8
    → MapOutcome fs ino b (direct_block ino b true fs)
unfolding direct_block install ptr
direct_block-MapOutcome fs ino b s l lb = elim (Bool-cases ((fs.inodes ino).blocks b == no_block)) [
  | inl h ↦ rw h (
      install-MapOutcome fs ino b s l lb ((==_iff _ _).0 h) (filled_block 0 fs)
        (filled_block-Filled fs 0))
  | inr h ↦ rw h (inr (Mapped-already fs ino b s (ground arith)))
]
