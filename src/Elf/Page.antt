-- ===== src/Elf/Page.antt =====
-- The pages of kernel/elf.cpp: a page gets the bytes that the file has for it, and zeros elsewhere.
use hrafn_os.Memory.{write8, write8-ne, write8_self}
use hrafn_os.Pmm.{Memory}
use hrafn_os.Elf.{Phdr, in_file, zero_bytes, file_bytes, fill_page}
use hrafn_os.Prelude.{
  ℕ, zero, suc, ◌+◌, ◌-◌, ◌≤◌, ◌<◌, ◌≡◌, ◌≢◌, refl, ◌∙◌, true, inl, inr, ◌⊎◌, arith, ◌==◌,
  Bool-cases, if◌then◌else◌,
}

pub zero_bytes-outside :
    (n b frame : ℕ) (m : Memory) (x : ℕ)
    → (x < frame + b) ⊎ (frame + b + n ≤ x)
    → zero_bytes n b frame m x ≡ m x
unfolding zero_bytes
zero_bytes-outside zero b frame m x out = refl
zero_bytes-outside (suc n) b frame m x out =
    zero_bytes-outside n (b + 1) frame _ x (omega arith)
    ∙ write8-ne m (frame + b) 0 x (λ e. omega arith)

zero_bytes-inside :
    (n b frame : ℕ) (m : Memory) (k : ℕ)
    → b ≤ k
    → k < b + n
    → zero_bytes n b frame m (frame + k) ≡ 0
unfolding zero_bytes
zero_bytes-inside zero b frame m k l r = absurd (omega arith)
zero_bytes-inside (suc n) b frame m k l r = elim (Bool-cases (k == b)) [
  | inl e ↦
      let q : k ≡ b = ground arith in
      rw q (
        zero_bytes-outside n (b + 1) frame _ (frame + b) (inl (omega arith))
        ∙ write8_self m (frame + b) 0)
  | inr e ↦ zero_bytes-inside n (b + 1) frame _ k (ground arith) (omega arith)
]

-- The file's bytes for the page lie apart from the frame.
abbrev pub FileApart : ℕ → Phdr → ℕ → ℕ → Type 0
FileApart elf p va frame =
    (off : ℕ)
    → off < 4096
    → in_file p (va + off) ≡ true
    → let a = elf + (p.p_offset + (va + off - p.p_vaddr)) in (a < frame) ⊎ (frame + 4096 ≤ a)

-- the body of the loop
abbrev one_byte : ℕ → ℕ → Phdr → ℕ → ℕ → Memory → Memory
one_byte off elf p va frame m =
    if in_file p (va + off)
    then write8 m (frame + off) (m (elf + (p.p_offset + (va + off - p.p_vaddr))))
    else m

one_byte-ne :
    (off elf : ℕ) (p : Phdr) (va frame : ℕ) (m : Memory) (x : ℕ)
    → x ≢ frame + off
    → one_byte off elf p va frame m x ≡ m x
one_byte-ne off elf p va frame m x ne = elim (Bool-cases (in_file p (va + off))) [
  | inl e ↦ rw e (write8-ne m (frame + off) _ x ne)
  | inr e ↦ rw e refl
]

pub file_bytes-outside :
    (n off elf : ℕ) (p : Phdr) (va frame : ℕ) (m : Memory) (x : ℕ)
    → (x < frame + off) ⊎ (frame + off + n ≤ x)
    → file_bytes n off elf p va frame m x ≡ m x
unfolding file_bytes
file_bytes-outside zero off elf p va frame m x out = refl
file_bytes-outside (suc n) off elf p va frame m x out =
    file_bytes-outside n (off + 1) elf p va frame _ x (omega arith)
    ∙ one_byte-ne off elf p va frame m x (λ q. omega arith)

file_bytes-inside :
    (n off elf : ℕ) (p : Phdr) (va frame : ℕ) (m m0 : Memory) (k : ℕ)
    → ((x : ℕ) → m0 x < 256)
    → FileApart elf p va frame
    → ((x : ℕ) → (x < frame) ⊎ (frame + 4096 ≤ x) → m x ≡ m0 x)
    → off + n ≤ 4096
    → off ≤ k
    → k < off + n
    → m (frame + k) ≡ 0
    → file_bytes n off elf p va frame m (frame + k)
      ≡ (if in_file p (va + k) then m0 (elf + (p.p_offset + (va + k - p.p_vaddr))) else 0)
unfolding file_bytes
file_bytes-inside zero off elf p va frame m m0 k bytes apart same room l r z = absurd (omega arith)
file_bytes-inside (suc n) off elf p va frame m m0 k bytes apart same room l r z =
    elim (Bool-cases (k == off)) [
      | inl e ↦
          let q : k ≡ off = ground arith in
          rw q (
            file_bytes-outside n (off + 1) elf p va frame _ (frame + off) (inl (omega arith))
            ∙ written (rw (← q) z))
      | inr e ↦
          file_bytes-inside n (off + 1) elf p va frame _ m0 k bytes apart
            (λ x out. one_byte-ne off elf p va frame m x (λ q. omega arith) ∙ same x out)
            (omega arith) (ground arith) (omega arith)
            (one_byte-ne off elf p va frame m (frame + k) (λ q. ground arith) ∙ z)
    ]
  where
    written :
        m (frame + off) ≡ 0
        → one_byte off elf p va frame m (frame + off)
          ≡ (if in_file p (va + off) then m0 (elf + (p.p_offset + (va + off - p.p_vaddr))) else 0)
    written z0 = elim (Bool-cases (in_file p (va + off))) [
      | inl e ↦
          let a = elf + (p.p_offset + (va + off - p.p_vaddr)) in
          let s = same a (apart off (omega arith) e) in
          let b = bytes a in rw e (write8_self m (frame + off) (m a) ∙ omega arith)
      | inr e ↦ rw e z0
    ]

-- In a memory of bytes, and with the file's bytes for the page at `va` apart from the frame, the
-- frame's byte `k` becomes the file's where the segment has one for `va + k`, and 0 elsewhere; nothing
-- outside the frame is written.
pub fill_page-bytes :
    (elf : ℕ) (p : Phdr) (va frame : ℕ) (m : Memory)
    → ((x : ℕ) → m x < 256)
    → FileApart elf p va frame
    → ((k : ℕ)
        → k < 4096
        → fill_page elf p va frame m (frame + k)
          ≡ (if in_file p (va + k) then m (elf + (p.p_offset + (va + k - p.p_vaddr))) else 0))
      × ((x : ℕ) → (x < frame) ⊎ (frame + 4096 ≤ x) → fill_page elf p va frame m x ≡ m x)
unfolding fill_page
fill_page-bytes elf p va frame m bytes apart = (
  λ k l.
      file_bytes-inside 4096 0 elf p va frame (zero_bytes 4096 0 frame m) m k bytes apart
        (λ x out. zero_bytes-outside 4096 0 frame m x (omega arith)) (omega arith) (omega arith)
        (omega arith) (zero_bytes-inside 4096 0 frame m k (omega arith) (omega arith)),
  λ x out.
      file_bytes-outside 4096 0 elf p va frame _ x (omega arith)
      ∙ zero_bytes-outside 4096 0 frame m x (omega arith),
)
