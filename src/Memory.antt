-- ===== src/Memory.antt =====
-- Memory as the kernel's C++ sees it, a function from addresses to bytes: stores of little-endian
-- words, and what a load gives after them.
use hrafn_os.Pmm.{Memory, read32, read64}
use hrafn_os.Prelude.{
  ◌-◌, ℕ, ◌+◌, ◌/◌, ◌%◌, ◌^◌, ◌≤◌, ◌<◌, ◌≡◌, ◌≢◌, refl, ◌∙◌, ◌⊎◌, arith, ◌==◌, if◌then◌else◌,
  Bool-cases, ◌*◌, inl, ltb, inr, ltb→lt,
}

-- `*(uint8_t*)a = v`
unfoldable pub write8 : Memory → ℕ → ℕ → Memory
write8 m a v x = if x == a then v % 2 ^ 8 else m x

-- `*(uint32_t*)a = v`
unfoldable pub write32 : Memory → ℕ → ℕ → Memory
write32 m a v =
    write8 (write8 (write8 (write8 m a v) (a + 1) (v / 2 ^ 8)) (a + 2) (v / 2 ^ 16)) (a + 3)
      (v / 2 ^ 24)

-- `*(uint64_t*)a = v`
unfoldable pub write64 : Memory → ℕ → ℕ → Memory
write64 m a v = write32 (write32 m a (v % 2 ^ 32)) (a + 4) (v / 2 ^ 32)

pub write8_self : (m : Memory) (a v : ℕ) → write8 m a v a ≡ v % 2 ^ 8
unfolding write8
write8_self m a v = ground arith

pub write8-ne : (m : Memory) (a v x : ℕ) → x ≢ a → write8 m a v x ≡ m x
unfolding write8
write8-ne m a v x ne = ground arith

pub write32-outside : (m : Memory) (a v x : ℕ) → (x < a) ⊎ (a + 4 ≤ x) → write32 m a v x ≡ m x
unfolding write32
write32-outside m a v x out =
    write8-ne _ (a + 3) _ x (λ e. omega arith)
    ∙ write8-ne _ (a + 2) _ x (λ e. omega arith)
    ∙ write8-ne _ (a + 1) _ x (λ e. omega arith)
    ∙ write8-ne _ a _ x (λ e. omega arith)

pub write64-outside : (m : Memory) (a v x : ℕ) → (x < a) ⊎ (a + 8 ≤ x) → write64 m a v x ≡ m x
unfolding write64
write64-outside m a v x out =
    write32-outside _ (a + 4) _ x (omega arith) ∙ write32-outside m a _ x (omega arith)

write32-bytes :
    (m : Memory) (a v : ℕ)
    → (write32 m a v a ≡ v % 2 ^ 8)
      × (write32 m a v (a + 1) ≡ v / 2 ^ 8 % 2 ^ 8)
      × (write32 m a v (a + 2) ≡ v / 2 ^ 16 % 2 ^ 8)
      × (write32 m a v (a + 3) ≡ v / 2 ^ 24 % 2 ^ 8)
unfolding write32
write32-bytes m a v = (
  write8-ne _ (a + 3) (v / 2 ^ 24) a (λ e. omega arith)
      ∙ write8-ne _ (a + 2) (v / 2 ^ 16) a (λ e. omega arith)
      ∙ write8-ne _ (a + 1) (v / 2 ^ 8) a (λ e. omega arith)
      ∙ write8_self m a v,
  write8-ne _ (a + 3) (v / 2 ^ 24) (a + 1) (λ e. omega arith)
      ∙ write8-ne _ (a + 2) (v / 2 ^ 16) (a + 1) (λ e. omega arith)
      ∙ write8_self _ (a + 1) (v / 2 ^ 8),
  write8-ne _ (a + 3) (v / 2 ^ 24) (a + 2) (λ e. omega arith) ∙ write8_self _ (a + 2) (v / 2 ^ 16),
  write8_self _ (a + 3) (v / 2 ^ 24),
)

pub read32-write32 : (m : Memory) (a v : ℕ) → v < 2 ^ 32 → read32 (write32 m a v) a ≡ v
unfolding read32
read32-write32 m a v l =
    let (b0, b1, b2, b3) = write32-bytes m a v in rw (b0, b1, b2, b3) (omega arith)

pub read32-same :
    (m n : Memory) (a : ℕ) → ((x : ℕ) → a ≤ x → x < a + 4 → m x ≡ n x) → read32 m a ≡ read32 n a
unfolding read32
read32-same m n a h =
    rw
      (
        h a (omega arith) (omega arith),
        h (a + 1) (omega arith) (omega arith),
        h (a + 2) (omega arith) (omega arith),
        h (a + 3) (omega arith) (omega arith),
      )
      refl

pub read64-same :
    (m n : Memory) (a : ℕ) → ((x : ℕ) → a ≤ x → x < a + 8 → m x ≡ n x) → read64 m a ≡ read64 n a
unfolding read64
read64-same m n a h =
    rw
      (
        read32-same m n a (λ x p q. h x p (omega arith)),
        read32-same m n (a + 4) (λ x p q. h x (omega arith) (omega arith)),
      )
      refl

-- A word reads back as stored.
pub read64-write64 : (m : Memory) (a v : ℕ) → v < 2 ^ 64 → read64 (write64 m a v) a ≡ v
unfolding write64 read64
read64-write64 m a v l =
    let lo =
      read32-same (write64 m a v) (write32 m a (v % 2 ^ 32)) a
        (λ x p q. write32-outside _ (a + 4) (v / 2 ^ 32) x (omega arith))
      ∙ read32-write32 m a (v % 2 ^ 32) (omega arith) in
    let hi = read32-write32 (write32 m a (v % 2 ^ 32)) (a + 4) (v / 2 ^ 32) (omega arith) in
    rw (lo, hi) (omega arith)

-- A word apart from the stored one stays.
pub read64-write64_apart :
    (m : Memory) (a v b : ℕ) → (b + 8 ≤ a) ⊎ (a + 8 ≤ b) → read64 (write64 m a v) b ≡ read64 m b
read64-write64_apart m a v b h =
    read64-same (write64 m a v) m b (λ x p q. write64-outside m a v x (omega arith))

write32-bytes_lt : (m : Memory) (a v : ℕ) → ((x : ℕ) → m x < 256) → (x : ℕ) → write32 m a v x < 256
unfolding write32 write8
write32-bytes_lt m a v h x = ground (arith, h x)

-- A store keeps every cell of memory a byte.
pub write64-bytes : (m : Memory) (a v : ℕ) → ((x : ℕ) → m x < 256) → (x : ℕ) → write64 m a v x < 256
unfolding write64
write64-bytes m a v h x = write32-bytes_lt _ (a + 4) _ (write32-bytes_lt m a _ h) x

read32-lt : (m : Memory) (a : ℕ) → ((x : ℕ) → m x < 256) → read32 m a < 2 ^ 32
unfolding read32
read32-lt m a h = omega (arith, h a, h (a + 1), h (a + 2), h (a + 3))

pub read64-lt : (m : Memory) (a : ℕ) → ((x : ℕ) → m x < 256) → read64 m a < 2 ^ 64
unfolding read64
read64-lt m a h = omega (arith, read32-lt m a h, read32-lt m (a + 4) h)

write32-read32 :
    (m n : Memory) (a b j : ℕ)
    → ((x : ℕ) → n x < 256)
    → j < 4
    → write32 m a (read32 n b) (a + j) ≡ n (b + j)
unfolding read32
write32-read32 m n a b j h l =
    let (b0, b1, b2, b3) = write32-bytes m a (read32 n b) in
    let h0 = h b in
    let h1 = h (b + 1) in
    let h2 = h (b + 2) in
    let h3 = h (b + 3) in
    elim (Bool-cases (j == 0)) [
      | inl e ↦
          let q : j ≡ 0 = ground arith in
          let p : a + 0 ≡ a = omega arith in
          let r : b + 0 ≡ b = omega arith in rw (q, p, r) (b0 ∙ omega arith)
      | inr e ↦ elim (Bool-cases (j == 1)) [
        | inl e1 ↦ let q : j ≡ 1 = ground arith in rw q (b1 ∙ omega arith)
        | inr e1 ↦ elim (Bool-cases (j == 2)) [
          | inl e2 ↦ let q : j ≡ 2 = ground arith in rw q (b2 ∙ omega arith)
          | inr e2 ↦ let q : j ≡ 3 = ground arith in rw q (b3 ∙ omega arith)
        ]
      ]
    ]

-- A word that is loaded and stored copies its bytes.
pub write64-read64 :
    (m n : Memory) (a b j : ℕ)
    → ((x : ℕ) → n x < 256)
    → j < 8
    → write64 m a (read64 n b) (a + j) ≡ n (b + j)
unfolding write64 read64
write64-read64 m n a b j h l =
    let lo = read32-lt n b h in
    let q0 : (read32 n b + 2 ^ 32 * read32 n (b + 4)) % 2 ^ 32 ≡ read32 n b = omega arith in
    let q1 : (read32 n b + 2 ^ 32 * read32 n (b + 4)) / 2 ^ 32 ≡ read32 n (b + 4) = omega arith in
    rw (q0, q1)
      (elim (Bool-cases (ltb j 4)) [
        | inl e ↦
            write32-outside _ (a + 4) _ (a + j) (ground arith)
            ∙ write32-read32 m n a b j h (ltb→lt _ _ e)
        | inr e ↦
            let p : a + j ≡ a + 4 + (j - 4) = ground arith in
            let r : b + j ≡ b + 4 + (j - 4) = ground arith in
            rw (p, r) (write32-read32 _ n (a + 4) (b + 4) (j - 4) h (ground arith))
      ])

pub write8-bytes : (m : Memory) (a v : ℕ) → ((x : ℕ) → m x < 256) → (x : ℕ) → write8 m a v x < 256
unfolding write8
write8-bytes m a v h x = ground (arith, h x)
