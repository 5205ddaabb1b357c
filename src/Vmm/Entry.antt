-- ===== src/Vmm/Entry.antt =====
-- Page-table entries of kernel/vmm.cpp: what their flag tests and the values the code composes come
-- to in arithmetic, and what stores of entries leave alone.
use hrafn_os.Words.Bits.{
  bit_or-zero, bit_or-add, bit_and-one, bit_and-four, bit_or-one, bit_or-four,
}
use hrafn_os.Memory.{
  read64-write64, read64-write64_apart, write64-outside, write64-bytes, read64-lt, read64-same,
}
use hrafn_os.Pmm.{Memory}
use hrafn_os.Vmm.{
  entry, set_entry, is_present, want, page_user, page_present, address, clear_entries,
}
use hrafn_os.Prelude.{
  ℕ, zero, suc, ◌+◌, ◌*◌, ◌/◌, ◌%◌, ◌^◌, ◌≤◌, ◌<◌, max, ◌≡◌, ◌≢◌, refl, ◌∙◌, inl, inr, ◌⊎◌, bit_and,
  bit_or, arith, ◌==◌, Bool-cases,
}

pub is_present-odd : (e : ℕ) → is_present e ≡ (e % 2 == 1)
is_present-odd e = rw (bit_and-one e) (ground arith)

pub want-sum : (flags : ℕ) → want flags ≡ 3 + flags / 4 % 2 * 4
want-sum flags = rw (bit_and-four flags) (elim (Bool-cases (flags / 4 % 2 == 0)) [
  | inl e ↦ let q : flags / 4 % 2 ≡ 0 = ground arith in rw q refl
  | inr e ↦ let q : flags / 4 % 2 ≡ 1 = ground arith in rw q refl
])

-- `((uint64_t)nt) | want`, for the table in frame `n`
pub table_entry : (n flags : ℕ) → bit_or (n * 4096) (want flags) ≡ n * 4096 + 3 + flags / 4 % 2 * 4
table_entry n flags =
    let w = want-sum flags in bit_or-add 12 n (want flags) (omega arith) ∙ omega arith

-- `e | (flags & PAGE_USER)`
pub user_entry :
    (e flags : ℕ)
    → bit_or e (bit_and flags page_user) ≡ e / 8 * 8 + max (e / 4 % 2) (flags / 4 % 2) * 4 + e % 4
user_entry e flags = rw (bit_and-four flags) (elim (Bool-cases (flags / 4 % 2 == 0)) [
  | inl z ↦ let q : flags / 4 % 2 ≡ 0 = ground arith in rw q (bit_or-zero e ∙ omega arith)
  | inr z ↦ let q : flags / 4 % 2 ≡ 1 = ground arith in rw q (bit_or-four e ∙ omega arith)
])

-- `(phys & ADDR_MASK) | flags | PAGE_PRESENT`
pub page_entry :
    (phys flags : ℕ)
    → flags < 4096
    → bit_or (bit_or (address phys) flags) page_present ≡ (phys / 4096 * 4096 + flags) / 2 * 2 + 1
page_entry phys flags l = rw (bit_or-add 12 (phys / 4096) flags l) (bit_or-one _)

module _ (m : Memory) (f i : ℕ) (e : ℕ) (li : i < 512) where
  pub entry-set_entry : e < 2 ^ 64 → entry (set_entry (f * 4096) i e m) (f * 4096) i ≡ e
  entry-set_entry l = read64-write64 m (f * 4096 + 8 * i) e l

  pub entry-set_entry_apart :
      (g j : ℕ)
      → j < 512
      → (g ≢ f) ⊎ (j ≢ i)
      → entry (set_entry (f * 4096) i e m) (g * 4096) j ≡ entry m (g * 4096) j
  entry-set_entry_apart g j lj (inl ne) =
      read64-write64_apart m (f * 4096 + 8 * i) e (g * 4096 + 8 * j) (omega arith)
  entry-set_entry_apart g j lj (inr ne) =
      read64-write64_apart m (f * 4096 + 8 * i) e (g * 4096 + 8 * j) (omega arith)

  pub set_entry-outside : (a : ℕ) → a / 4096 ≢ f → set_entry (f * 4096) i e m a ≡ m a
  set_entry-outside a ne = write64-outside m (f * 4096 + 8 * i) e a (omega arith)

pub set_entry-bytes :
    (m : Memory) (t i e : ℕ) → ((a : ℕ) → m a < 256) → (a : ℕ) → set_entry t i e m a < 256
set_entry-bytes m t i e h a = write64-bytes m (t + 8 * i) e h a

pub entry-lt : (m : Memory) (t i : ℕ) → ((a : ℕ) → m a < 256) → entry m t i < 2 ^ 64
entry-lt m t i h = read64-lt m (t + 8 * i) h

pub clear_entries-outside :
    (n i f : ℕ) (m : Memory) (a : ℕ)
    → i + n ≤ 512
    → a / 4096 ≢ f
    → clear_entries n i (f * 4096) m a ≡ m a
unfolding clear_entries
clear_entries-outside zero i f m a l ne = refl
clear_entries-outside (suc n) i f m a l ne =
    clear_entries-outside n (i + 1) f _ a (omega arith) ne
    ∙ set_entry-outside m f i 0 (omega arith) a ne

pub clear_entries-bytes :
    (n i t : ℕ) (m : Memory) → ((a : ℕ) → m a < 256) → (a : ℕ) → clear_entries n i t m a < 256
unfolding clear_entries
clear_entries-bytes zero i t m h a = h a
clear_entries-bytes (suc n) i t m h a =
    clear_entries-bytes n (i + 1) t _ (set_entry-bytes m t i 0 h) a

clear_entries-before :
    (n i f : ℕ) (m : Memory) (j : ℕ)
    → i + n ≤ 512
    → j < i
    → entry (clear_entries n i (f * 4096) m) (f * 4096) j ≡ entry m (f * 4096) j
unfolding clear_entries
clear_entries-before zero i f m j l lj = refl
clear_entries-before (suc n) i f m j l lj =
    clear_entries-before n (i + 1) f _ j (omega arith) (omega arith)
    ∙ entry-set_entry_apart m f i 0 (omega arith) f j (omega arith) (inr (λ e. omega arith))

pub clear_entries-zero :
    (n i f : ℕ) (m : Memory) (j : ℕ)
    → i + n ≤ 512
    → i ≤ j
    → j < i + n
    → entry (clear_entries n i (f * 4096) m) (f * 4096) j ≡ 0
unfolding clear_entries
clear_entries-zero zero i f m j l a b = absurd (omega arith)
clear_entries-zero (suc n) i f m j l a b = elim (Bool-cases (j == i)) [
  | inl e ↦
      let q : j ≡ i = ground arith in
      rw q (
        clear_entries-before n (i + 1) f _ i (omega arith) (omega arith)
        ∙ entry-set_entry m f i 0 (omega arith) (omega arith))
  | inr e ↦ clear_entries-zero n (i + 1) f _ j (omega arith) (ground arith) (omega arith)
]

-- The entries of another table.
pub entry-clear_entries_other :
    (f : ℕ) (m : Memory) (g j : ℕ)
    → j < 512
    → g ≢ f
    → entry (clear_entries 512 0 (f * 4096) m) (g * 4096) j ≡ entry m (g * 4096) j
entry-clear_entries_other f m g j lj ne =
    read64-same (clear_entries 512 0 (f * 4096) m) m (g * 4096 + 8 * j)
      (λ x p q. clear_entries-outside 512 0 f m x (omega arith) (λ e. omega arith))
