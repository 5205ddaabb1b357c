-- ===== src/Munin/Disk/Bytes.antt =====
-- Byte arrays on disk in kernel/munin.cpp: `disk_read_bytes` reads back what `disk_write_bytes` wrote,
-- and the sectors around it stay as they are.
use hrafn_os.Munin.Disk.{Device, write_full, disk_write_bytes, read_full, disk_read_bytes}
use hrafn_os.Prelude.{
  leb, ltb, ltb→lt, if◌then◌else◌, true, false, ℕ, zero, suc, ◌+◌, ◌-◌, ◌*◌, ◌/◌, ◌%◌, ◌≤◌, ◌<◌,
  ◌≡◌, ◌≢◌, refl, ap, ◌∙◌, true, false, ◌&&◌, inl, inr, ◌⊎◌, arith, ltb, leb, ◌==◌, ltb→lt,
  Bool-cases, if◌then◌else◌,
}

-- A block device: a sector reads back as stored, and storing one leaves the others alone.
pub record IsDevice {ℓ} {D : Type ℓ} (dev : Device D) : Type ℓ where
  pub same : (s : ℕ) (b : ℕ → ℕ) (d : D) (o : ℕ) → o < 512 → dev.read s (dev.store s b d) o ≡ b o
  pub other :
      (s t : ℕ) (b : ℕ → ℕ) (d : D) (o : ℕ)
      → s ≢ t
      → dev.read t (dev.store s b d) o ≡ dev.read t d o

module _ {ℓ} {D : Type ℓ} (dev : Device D) (v : IsDevice dev) where
  -- Whole sectors: sector `start + k` holds its part of `src` for i ≤ k < i + n.
  pub write_full-outside :
      (n i start : ℕ) (src : ℕ → ℕ) (d : D) (s o : ℕ)
      → (s < start + i) ⊎ (start + i + n ≤ s)
      → dev.read s (write_full dev n i start src d) o ≡ dev.read s d o
  unfolding write_full
  write_full-outside zero i start src d s o out = refl
  write_full-outside (suc n) i start src d s o out =
      write_full-outside n (i + 1) start src _ s o (omega arith)
      ∙ v.other (start + i) s _ d o (omega arith)

  -- Whole sectors: sector `start + k` holds its part of `src`.
  pub write_full-inside :
      (n i start : ℕ) (src : ℕ → ℕ) (d : D) (k o : ℕ)
      → o < 512
      → i ≤ k
      → k < i + n
      → dev.read (start + k) (write_full dev n i start src d) o ≡ src (k * 512 + o)
  unfolding write_full
  write_full-inside zero i start src d k o lo a b = absurd (omega arith)
  write_full-inside (suc n) i start src d k o lo a b = elim (Bool-cases (k == i)) [
    | inl e ↦
        let q : k ≡ i = ground arith in
        rw q (
          write_full-outside n (i + 1) start src _ (start + i) o (inl (omega arith))
          ∙ v.same (start + i) _ d o lo)
    | inr e ↦ write_full-inside n (i + 1) start src _ k o lo (ground arith) (omega arith)
  ]

  -- Every byte of the array is where `disk_read_bytes` looks for it.
  pub stored :
      (start n a : ℕ) (src : ℕ → ℕ) (d : D)
      → a < n
      → dev.read (start + a / 512) (disk_write_bytes dev start src n d) (a % 512) ≡ src a
  unfolding disk_write_bytes
  stored start n a src d l = elim (Bool-cases (n % 512 == 0)) [
    | inl e ↦ rw e (whole (ground arith))
    | inr e ↦ rw e (elim (Bool-cases (ltb (a / 512) (n / 512))) [
      | inl w ↦
          v.other (start + n / 512) (start + a / 512) _ _ (a % 512) (ground arith)
          ∙ whole (ground arith)
      | inr w ↦
          let q : a / 512 ≡ n / 512 = ground arith in
          let t : ltb (a % 512) (n % 512) ≡ true = ground arith in
          let p : n / 512 * 512 + a % 512 ≡ a = omega arith in
          rw q (v.same (start + n / 512) _ _ (a % 512) (omega arith) ∙ rw (t, p) refl)
    ])
  ]
    where
      whole :
          a / 512 < n / 512
          → dev.read (start + a / 512) (write_full dev (n / 512) 0 start src d) (a % 512) ≡ src a
      whole w =
          let p : a / 512 * 512 + a % 512 ≡ a = omega arith in
          write_full-inside (n / 512) 0 start src d (a / 512) (a % 512) (omega arith) (omega arith)
            (omega arith)
          ∙ ap src p

  read_full-at :
      (n i start : ℕ) (dst : ℕ → ℕ) (d : D) (a : ℕ)
      → read_full dev n i start dst d a ≡ (
          if leb (i * 512) a && ltb a ((i + n) * 512)
          then dev.read (start + a / 512) d (a % 512)
          else dst a)
  unfolding read_full
  read_full-at zero i start dst d a = ground arith
  read_full-at (suc n) i start dst d a =
      read_full-at n (i + 1) start _ d a
      ∙ (elim (Bool-cases (leb (i * 512) a && ltb a (i * 512 + 512))) [
        | inl e ↦
            let q : a / 512 ≡ i = ground arith in
            let r : a - i * 512 ≡ a % 512 = ground arith in
            let f : (leb ((i + 1) * 512) a && ltb a ((i + 1 + n) * 512)) ≡ false = ground arith in
            let t : (leb (i * 512) a && ltb a ((i + suc n) * 512)) ≡ true = ground arith in
            rw (e, f, t, q, r) refl
        | inr e ↦
            let c : (leb ((i + 1) * 512) a && ltb a ((i + 1 + n) * 512))
                ≡ (leb (i * 512) a && ltb a ((i + suc n) * 512)) =
              ground arith in
            rw (e, c) refl
      ])

  pub disk_read_bytes-at :
      (start n : ℕ) (dst : ℕ → ℕ) (d : D) (a : ℕ)
      → disk_read_bytes dev start dst n d a
        ≡ (if ltb a n then dev.read (start + a / 512) d (a % 512) else dst a)
  unfolding disk_read_bytes
  disk_read_bytes-at start n dst d a = elim (Bool-cases (n % 512 == 0)) [
    | inl e ↦
        let c : (leb (0 * 512) a && ltb a ((0 + n / 512) * 512)) ≡ ltb a n = ground arith in
        rw e (read_full-at (n / 512) 0 start dst d a ∙ rw c refl)
    | inr e ↦ rw e (elim (Bool-cases (leb (n / 512 * 512) a && ltb a (n / 512 * 512 + n % 512))) [
      | inl t ↦
          let q : a / 512 ≡ n / 512 = ground arith in
          let r : a - n / 512 * 512 ≡ a % 512 = ground arith in
          let l : ltb a n ≡ true = ground arith in rw (t, l, q, r) refl
      | inr t ↦
          let c : (leb (0 * 512) a && ltb a ((0 + n / 512) * 512)) ≡ ltb a n = ground arith in
          rw t (read_full-at (n / 512) 0 start dst d a ∙ rw c refl)
    ])
  ]

  -- On a device whose sectors read back as stored, reading `n` bytes from where `n` bytes were
  -- written gives those bytes, whether or not `n` fills the last sector, and leaves the buffer
  -- behind them alone.
  pub disk_read_bytes-disk_write_bytes :
      (start n : ℕ) (src dst : ℕ → ℕ) (d : D) (a : ℕ)
      → disk_read_bytes dev start dst n (disk_write_bytes dev start src n d) a
        ≡ (if ltb a n then src a else dst a)
  disk_read_bytes-disk_write_bytes start n src dst d a =
      disk_read_bytes-at start n dst (disk_write_bytes dev start src n d) a
      ∙ (elim (Bool-cases (ltb a n)) [
        | inl e ↦ rw e (stored start n a src d (ltb→lt _ _ e))
        | inr e ↦ rw e refl
      ])

  -- On a device where storing a sector leaves the others alone, writing `n` bytes leaves every
  -- sector but the (n + 511) / 512 from `start` on alone.
  pub disk_write_bytes-outside :
      (start n : ℕ) (src : ℕ → ℕ) (d : D) (s o : ℕ)
      → (s < start) ⊎ (start + (n + 511) / 512 ≤ s)
      → dev.read s (disk_write_bytes dev start src n d) o ≡ dev.read s d o
  unfolding disk_write_bytes
  disk_write_bytes-outside start n src d s o out = elim (Bool-cases (n % 512 == 0)) [
    | inl e ↦ rw e (write_full-outside (n / 512) 0 start src d s o (omega arith))
    | inr e ↦ rw e (
        v.other (start + n / 512) s _ _ o (ground arith)
        ∙ write_full-outside (n / 512) 0 start src d s o (omega arith))
  ]
