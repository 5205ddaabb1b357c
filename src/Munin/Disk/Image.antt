-- ===== src/Munin/Disk/Image.antt =====
-- The inode table of kernel/munin.cpp as bytes: the inodes read from its image are the inodes.
use mathlib.Core.Path.{subst}
use hrafn_os.Munin.Store.{Inode, get32}
use hrafn_os.Munin.Disk.{inode_bytes, table_bytes, byte_of, inode_byte, table_image, inode_at}
use hrafn_os.Prelude.{ℕ, ◌+◌, ◌-◌, ◌*◌, ◌/◌, ◌%◌, ◌^◌, ◌<◌, ◌≡◌, refl, ap, ◌∙◌, arith}

pub get32-same :
    (m n : ℕ → ℕ) (a : ℕ) → ((k : ℕ) → k < 4 → m (a + k) ≡ n (a + k)) → get32 m a ≡ get32 n a
unfolding get32
get32-same m n a h =
    let e0 : m a ≡ n a = subst (λ x. m x ≡ n x) (omega arith) (h 0 (omega arith)) in
    rw (e0, h 1 (omega arith), h 2 (omega arith), h 3 (omega arith)) refl

-- Four bytes of a word are the word.
get32-byte_of :
    (m : ℕ → ℕ) (a v : ℕ) → v < 2 ^ 32 → ((k : ℕ) → k < 4 → m (a + k) ≡ byte_of v k) → get32 m a ≡ v
unfolding get32 byte_of
get32-byte_of m a v l h =
    let e0 : m a ≡ v % 256 =
      subst (λ x. m x ≡ v % 256) {x = a + 0} (omega arith) (h 0 (omega arith) ∙ omega arith) in
    rw (e0, h 1 (omega arith), h 2 (omega arith), h 3 (omega arith)) (omega arith)

-- The fields of an inode fit their C types.
pub record Fits (f : Inode) : Type 0 where
  pub size : f.size < 2 ^ 32
  pub blocks : (b : ℕ) → b < 8 → f.blocks b < 2 ^ 32
  pub indirect : f.indirect < 2 ^ 32

-- Two inodes are the same as far as the C record goes.
pub record Same (f g : Inode) : Type 0 where
  pub kind : f.kind ≡ g.kind
  pub size : f.size ≡ g.size
  pub blocks : (b : ℕ) → b < 8 → f.blocks b ≡ g.blocks b
  pub indirect : f.indirect ≡ g.indirect

inode_bytes-size : (f : Inode) (k : ℕ) → k < 4 → inode_byte f (4 + k) ≡ byte_of f.size k
unfolding inode_byte
inode_bytes-size f k l = ground (arith, ap (byte_of f.size) {x = (4 + k) % 4} {y = k})

inode_bytes-indirect : (f : Inode) (k : ℕ) → k < 4 → inode_byte f (40 + k) ≡ byte_of f.indirect k
unfolding inode_byte
inode_bytes-indirect f k l = ground (arith, ap (byte_of f.indirect) {x = (40 + k) % 4} {y = k})

inode_bytes-blocks :
    (f : Inode) (b k : ℕ) → b < 8 → k < 4 → inode_byte f (8 + 4 * b + k) ≡ byte_of (f.blocks b) k
unfolding inode_byte
inode_bytes-blocks f b k lb l =
    let p : (8 + 4 * b + k) / 4 - 2 ≡ b = omega arith in
    let q : (8 + 4 * b + k) % 4 ≡ k = omega arith in rw (p, q) (ground arith)

kind_byte : (f : Inode) → inode_byte f 0 ≡ f.kind
unfolding inode_byte
kind_byte f = refl

table_image-at :
    (inodes : ℕ → Inode) (i o : ℕ)
    → o < 44
    → table_image inodes (i * 44 + o) ≡ inode_byte (inodes i) o
unfolding table_image
table_image-at inodes i o l =
    let p : (i * 44 + o) / 44 ≡ i = omega arith in
    let q : (i * 44 + o) % 44 ≡ o = omega arith in rw (p, q) refl

-- Inodes that fit their C types read back from any copy of their image.
pub inode_at-Same :
    (m : ℕ → ℕ) (inodes : ℕ → Inode) (i : ℕ)
    → i < 128
    → Fits (inodes i)
    → ((a : ℕ) → a < table_bytes → m a ≡ table_image inodes a)
    → Same (inode_at m (i * inode_bytes)) (inodes i)
unfolding inode_at
inode_at-Same m inodes i l fits h = record {
  kind =
      subst (λ a. m (i * 44) ≡ table_image inodes a) {x = i * 44} (omega arith)
        (h (i * 44) (omega arith))
      ∙ table_image-at inodes i 0 (omega arith)
      ∙ kind_byte (inodes i);
  size = get32-byte_of m (i * 44 + 4) _ fits.size (λ k lk.
      byte_at (4 + k) (i * 44 + 4 + k) (omega arith) (omega arith)
      ∙ inode_bytes-size (inodes i) k lk);
  blocks = λ b lb. get32-byte_of m (i * 44 + 8 + 4 * b) _ (fits.blocks b lb) (λ k lk.
      byte_at (8 + 4 * b + k) (i * 44 + 8 + 4 * b + k) (omega arith) (omega arith)
      ∙ inode_bytes-blocks (inodes i) b k lb lk);
  indirect = get32-byte_of m (i * 44 + 40) _ fits.indirect (λ k lk.
      byte_at (40 + k) (i * 44 + 40 + k) (omega arith) (omega arith)
      ∙ inode_bytes-indirect (inodes i) k lk);
}
  where
    byte_at : (o a : ℕ) → o < 44 → a ≡ i * 44 + o → m a ≡ inode_byte (inodes i) o
    byte_at o a lo e = rw e (h (i * 44 + o) (omega arith) ∙ table_image-at inodes i o lo)
