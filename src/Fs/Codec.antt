-- ===== src/Fs/Codec.antt =====
-- The records of kernel/cofeufs.cpp written to the disk and read back.
use cofeuos.Base.{
  ℕ, ◌+◌, ◌-◌, ◌*◌, ◌/◌, ◌%◌, ◌^◌, ◌<◌, ◌≤◌, ◌≡◌, ◌≢◌, refl, ap, ◌∙◌, ltb, ◌==◌, if◌then◌else◌,
  arith, Bool-cases, inl, inr, sym, ◌⊎◌,
}
use cofeuos.Fs.{
  Fs, Inode, Bytes, byte, le32, inode_bytes, inode_of, inode_read, inode_write, paste, write,
  ino_lba,
}

-- The fields fit their bytes.
pub record Fits (d : Inode) : Type 0 where
  pub type : d.type < 2 ^ 16
  pub rsv : d.rsv < 2 ^ 16
  pub size : d.size < 2 ^ 32
  pub blocks : (i : ℕ) → i < 22 → d.blocks i < 2 ^ 32

-- Two inodes that have the same fields.
pub record Alike (a b : Inode) : Type 0 where
  pub name : (i : ℕ) → i < 32 → a.name i ≡ b.name i
  pub type : a.type ≡ b.type
  pub rsv : a.rsv ≡ b.rsv
  pub size : a.size ≡ b.size
  pub blocks : (i : ℕ) → i < 22 → a.blocks i ≡ b.blocks i

pub le32-byte :
    (f : Bytes) (o v : ℕ)
    → f o ≡ v % 256
    → f (o + 1) ≡ v / 256 % 256
    → f (o + 2) ≡ v / 65536 % 256
    → f (o + 3) ≡ v / 16777216 % 256
    → v < 2 ^ 32
    → le32 f o ≡ v
le32-byte f o v a b c d lt = omega arith

-- An inode's bytes, of which some sector has a copy.
inode_of-bytes :
    (d : Inode) (f : Bytes)
    → Fits d
    → ((x : ℕ) → x < 128 → f x ≡ inode_bytes d x)
    → Alike (inode_of f) d
inode_of-bytes d f fits same = record {
  name = λ i lt. ground (arith, same i);
  type = ground (arith, same 32, same 33, fits.type);
  rsv = ground (arith, same 34, same 35, fits.rsv);
  size = ground (arith, same 36, same 37, same 38, same 39, fits.size);
  blocks = λ i lt.
      le32-byte f (40 + 4 * i) (d.blocks i) (at i 0 (40 + 4 * i) lt (omega arith) (omega arith))
        (at i 1 (40 + 4 * i + 1) lt (omega arith) refl)
        (at i 2 (40 + 4 * i + 2) lt (omega arith) refl)
        (at i 3 (40 + 4 * i + 3) lt (omega arith) refl) (fits.blocks i lt);
}
  where
    at : (i k x : ℕ) → i < 22 → k < 4 → x ≡ 40 + 4 * i + k → f x ≡ byte k (d.blocks i)
    at i k x lt small e =
        let q : (x - 40) / 4 ≡ i = omega arith in
        let r : (x - 40) % 4 ≡ k = omega arith in
        let big : 40 ≤ x = omega arith in ground (arith, same x, ap d.blocks q)

pub paste_at : (dst src : Bytes) (o n y x : ℕ) → y ≡ o + x → x < n → paste dst o n src y ≡ src x
paste_at dst src o n y x e lt = let back : y - o ≡ x = omega arith in rw back (ground arith)

pub paste_off : (dst src : Bytes) (o n y : ℕ) → (y < o) ⊎ (o + n ≤ y) → paste dst o n src y ≡ dst y
paste_off dst src o n y off = ground arith

-- A sector that is written is read back, and every other sector stays.
pub write_at : (v : Fs) (k l x : ℕ) (f : Bytes) → l ≡ k → (write v k f).disk l x ≡ f x
write_at v k l x f e = ground arith

pub write_off : (v : Fs) (k l x : ℕ) (f : Bytes) → l ≢ k → (write v k f).disk l x ≡ v.disk l x
write_off v k l x f e = ground arith

pub inode_of-Alike :
    (f g : Bytes) → ((x : ℕ) → x < 128 → f x ≡ g x) → Alike (inode_of f) (inode_of g)
inode_of-Alike f g same = record {
  name = λ i lt. same i (omega arith);
  type = ground (arith, same 32, same 33);
  rsv = ground (arith, same 34, same 35);
  size = ground (arith, same 36, same 37, same 38, same 39);
  blocks = λ i lt. ground (
    arith,
    same (40 + 4 * i),
    same (40 + 4 * i + 1),
    same (40 + 4 * i + 2),
    same (40 + 4 * i + 3),
  );
}

-- The bytes of inode `n` after inode `m` has been written.
own_bytes :
    (v : Fs) (m n x : ℕ) (src : Bytes)
    → n ≡ m
    → x < 128
    → (write v (ino_lba + m / 4) (paste (v.disk (ino_lba + m / 4)) (m % 4 * 128) 128 src)).disk
        (ino_lba + n / 4)
        (n % 4 * 128 + x)
      ≡ src x
own_bytes v m n x src e lt =
    write_at v (ino_lba + m / 4) (ino_lba + n / 4) (n % 4 * 128 + x) _ (omega arith)
    ∙ paste_at (v.disk (ino_lba + m / 4)) src (m % 4 * 128) 128 (n % 4 * 128 + x) x (omega arith) lt

other_bytes :
    (v : Fs) (m n x : ℕ) (src : Bytes)
    → n ≢ m
    → x < 128
    → (write v (ino_lba + m / 4) (paste (v.disk (ino_lba + m / 4)) (m % 4 * 128) 128 src)).disk
        (ino_lba + n / 4)
        (n % 4 * 128 + x)
      ≡ v.disk (ino_lba + n / 4) (n % 4 * 128 + x)
other_bytes v m n x src ne lt = elim (Bool-cases (n / 4 == m / 4)) [
  | inl same ↦
      let e : n / 4 ≡ m / 4 = ground arith in
      write_at v (ino_lba + m / 4) (ino_lba + n / 4) (n % 4 * 128 + x) _ (omega arith)
      ∙ paste_off (v.disk (ino_lba + m / 4)) src (m % 4 * 128) 128 (n % 4 * 128 + x) (off e)
      ∙ ap (λ l. v.disk (ino_lba + l) (n % 4 * 128 + x)) (sym e)
  | inr far ↦
      let e : n / 4 ≢ m / 4 = ground arith in
      write_off v (ino_lba + m / 4) (ino_lba + n / 4) (n % 4 * 128 + x) _ (omega arith)
]
  where
    off : n / 4 ≡ m / 4 → (n % 4 * 128 + x < m % 4 * 128) ⊎ (m % 4 * 128 + 128 ≤ n % 4 * 128 + x)
    off e = elim (Bool-cases (ltb (n % 4) (m % 4))) [
      | inl h ↦ inl (ground arith)
      | inr h ↦ inr (ground arith)
    ]

-- An inode that is written is read back with the same fields, and no other inode changes.
pub inode_read-write :
    (v : Fs) (m n : ℕ) (d : Inode)
    → Fits d
    → Alike (inode_read (inode_write v m d) n) (if n == m then d else inode_read v n)
unfolding inode_read inode_write
inode_read-write v m n d fits = elim (Bool-cases (n == m)) [
  | inl same ↦
      let e : n ≡ m = ground arith in
      rw same (inode_of-bytes d _ fits (λ x lt. own_bytes v m n x (inode_bytes d) e lt))
  | inr other ↦
      let e : n ≢ m = ground arith in
      rw other (inode_of-Alike _ _ (λ x lt. other_bytes v m n x (inode_bytes d) e lt))
]
