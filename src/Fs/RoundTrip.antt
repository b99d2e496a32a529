-- ===== src/Fs/RoundTrip.antt =====
-- A file written by kernel/cofeufs.cpp and read back.
use cofeuos.Base.{
  ℕ, zero, suc, ◌+◌, ◌-◌, ◌*◌, ◌/◌, ◌%◌, ◌^◌, ◌<◌, ◌≤◌, ◌≡◌, refl, subst, ap, ◌∙◌, ◌⊎◌, inl, inr,
  true, Option, none, some, ltb, leb, ◌==◌, if◌then◌else◌, arith, Bool-cases, min,
}
use cofeuos.Fs.{
  Fs, Inode, Bytes, le32, data_lba, bm_lba, ino_count, max_file, inode_read, inode_write,
}
use cofeuos.Fs.Space.{inode_block_at, bm_flush, flush_from}
use cofeuos.Fs.Files.{read_inode, read_all, block_of}
use cofeuos.Fs.Codec.{Alike, Fits, inode_of-Alike, inode_read-write, write_off}
use cofeuos.Fs.Layout.{Layout}
use cofeuos.Fs.Contents.{Stored, HasRead, read_all_lem, inode_block_at-Layout}

pub Alike-trans : (a b c : Inode) → Alike a b → Alike b c → Alike a c
Alike-trans a b c p q = record {
  name = λ i h. p.name i h ∙ q.name i h;
  type = p.type ∙ q.type;
  rsv = p.rsv ∙ q.rsv;
  size = p.size ∙ q.size;
  blocks = λ i h. p.blocks i h ∙ q.blocks i h;
}

-- The bit map's sectors are the only ones that a flush writes.
pub flush_off :
    (k i : ℕ) (v : Fs) (l x : ℕ)
    → (l < bm_lba + i) ⊎ (bm_lba + i + k ≤ l)
    → (flush_from k v i).disk l x ≡ v.disk l x
unfolding flush_from
flush_off zero i v l x off = refl
flush_off (suc k) i v l x off =
    flush_off k (i + 1) _ l x (ground arith) ∙ write_off v (bm_lba + i) l x _ (ground arith)

bm_flush_off : (v : Fs) (l x : ℕ) → 2066 ≤ l → (bm_flush v).disk l x ≡ v.disk l x
unfolding bm_flush
bm_flush_off v l x le = flush_off 16 0 v l x (inr le)

pub flush-bm : (k i : ℕ) (v : Fs) → (flush_from k v i).bm ≡ v.bm
unfolding flush_from
flush-bm zero i v = refl
flush-bm (suc k) i v = flush-bm k (i + 1) _

pub bm_flush-bm : (v : Fs) → (bm_flush v).bm ≡ v.bm
unfolding bm_flush
bm_flush-bm v = flush-bm 16 0 v

-- What is left when an inode and the bit map are written to the disk.
abbrev pub saved : Fs → ℕ → Inode → Fs
saved v ino d = bm_flush (inode_write v ino d)

pub saved_bm : (v : Fs) (ino : ℕ) (d : Inode) → (saved v ino d).bm ≡ v.bm
unfolding inode_write
saved_bm v ino d = bm_flush-bm (inode_write v ino d)

pub saved_data :
    (v : Fs) (ino l x : ℕ) (d : Inode)
    → ino < ino_count
    → data_lba ≤ l
    → (saved v ino d).disk l x ≡ v.disk l x
unfolding inode_write
saved_data v ino l x d lt le =
    bm_flush_off (inode_write v ino d) l x (omega arith)
    ∙ write_off v (2066 + ino / 4) l x _ (omega arith)

saved_flushed :
    (v : Fs) (ino n : ℕ) (d : Inode)
    → Alike (inode_read (saved v ino d) n) (inode_read (inode_write v ino d) n)
unfolding inode_read
saved_flushed v ino n d =
    inode_of-Alike _ _
      (λ x h. bm_flush_off (inode_write v ino d) (2066 + n / 4) (n % 4 * 128 + x) (omega arith))

pub saved_inode :
    (v : Fs) (ino n : ℕ) (d : Inode)
    → Fits d
    → Alike (inode_read (saved v ino d) n) (if n == ino then d else inode_read v n)
saved_inode v ino n d fits =
    Alike-trans _ _ _ (saved_flushed v ino n d) (inode_read-write v ino n d fits)

pub saved_self : (v : Fs) (ino : ℕ) (d : Inode) → Fits d → Alike (inode_read (saved v ino d) ino) d
saved_self v ino d fits =
    let self : (ino == ino) ≡ true = ground arith in
    subst (λ b. Alike (inode_read (saved v ino d) ino) (if b then d else inode_read v ino)) self
      (saved_inode v ino ino d fits)

le32-same :
    (v w : Fs) (b o : ℕ)
    → ((l x : ℕ) → data_lba ≤ l → w.disk l x ≡ v.disk l x)
    → le32 (w.disk (data_lba + b)) o ≡ le32 (v.disk (data_lba + b)) o
le32-same v w b o disks =
    let at : (x : ℕ) → w.disk (data_lba + b) x ≡ v.disk (data_lba + b) x =
      (λ x. disks (data_lba + b) x (omega arith)) in
    ground (arith, at o, at (o + 1), at (o + 2), at (o + 3))

inode_block_at-same :
    (v w : Fs) (d e : Inode) (i : ℕ)
    → ((l x : ℕ) → data_lba ≤ l → w.disk l x ≡ v.disk l x)
    → ((j : ℕ) → j < 22 → e.blocks j ≡ d.blocks j)
    → inode_block_at w e i ≡ inode_block_at v d i
unfolding inode_block_at
inode_block_at-same v w d e i disks blocks = elim (Bool-cases (ltb i 20)) [
  | inl near ↦ ground (arith, blocks i)
  | inr far ↦ elim (Bool-cases (leb 2 ((i - 20) / 128))) [
    | inl out ↦ ground arith
    | inr less ↦
        let tbl : e.blocks (20 + (i - 20) / 128) ≡ d.blocks (20 + (i - 20) / 128) =
          blocks (20 + (i - 20) / 128) (ground arith) in
        let word : le32 (w.disk (data_lba + d.blocks (20 + (i - 20) / 128))) (4 * ((i - 20) % 128))
            ≡ le32 (v.disk (data_lba + d.blocks (20 + (i - 20) / 128))) (4 * ((i - 20) % 128)) =
          le32-same v w _ _ disks in
        ground arith
  ]
]

-- Inode `ino` has `len` bytes, those of `src`: a read of at most `maxlen` bytes gives the first
-- of them, and leaves the rest of the buffer.
abbrev pub ReadsAs : Fs → ℕ → Bytes → ℕ → Type 0
ReadsAs v ino src len =
    (buf : Bytes) (maxlen : ℕ)
    → (buf' : Bytes) × (read_inode v (inode_read v ino) buf maxlen ≡ some (buf', min len maxlen))
      × ((y : ℕ) → buf' y ≡ (if ltb y (min len maxlen) then src y else buf y))

block_of_at :
    (src : Bytes) (j n len x : ℕ)
    → x < 512
    → j * 512 + x < len
    → n ≡ (len + 511) / 512
    → block_of src j n len x ≡ src (j * 512 + x)
block_of_at src j n len x hx h e = ground arith

read_done :
    (n : ℕ) (buf c : Bytes) (o : Option Bytes)
    → HasRead 0 n buf c o
    → (buf' : Bytes) × (Path
        (Option (Bytes × ℕ))
        (elim o [ none ↦ none | some b ↦ some (b, n) ])
        (some (buf', n)))
      × ((y : ℕ) → buf' y ≡ (if ltb y n then c y else buf y))
read_done n buf c none h = absurd h
read_done n buf c (some b) h = (b, refl, λ y. ground (arith, h y))

read_inode_lem :
    (v : Fs) (d : Inode) (src buf : Bytes) (len maxlen : ℕ)
    → d.size ≡ len
    → HasRead 0
        (min len maxlen)
        buf
        src
        (read_all ((min len maxlen + 511) / 512) 0 v d buf (min len maxlen))
    → (buf' : Bytes) × (read_inode v d buf maxlen ≡ some (buf', min len maxlen))
      × ((y : ℕ) → buf' y ≡ (if ltb y (min len maxlen) then src y else buf y))
unfolding read_inode
read_inode_lem v d src buf len maxlen e h =
    let cut : (if ltb d.size maxlen then d.size else maxlen) ≡ min len maxlen = ground (arith, e) in
    let (buf', run, same) = read_done (min len maxlen) buf src _ h in
    (
      buf',
      ap
            (λ t. elim (read_all ((t + 511) / 512) 0 v d buf t) as (λ o. Option (Bytes × ℕ)) [
              | none ↦ none
              | some b ↦ some (b, t)
            ])
            cut
          ∙ run,
      same,
    )

pub Fits-Layout :
    (v0 v : Fs) (d0 d : Inode) (n tabs : ℕ) (own : ℕ → ℕ)
    → Layout v0 v d0 d n tabs own
    → d0.type < 2 ^ 16
    → d0.rsv < 2 ^ 16
    → d0.size < 2 ^ 32
    → Fits d
Fits-Layout v0 v d0 d n tabs own l t r s = record {
  type = rw l.same t;
  rsv = rw l.same r;
  size = rw l.same s;
  blocks = λ i lt. elim (Bool-cases (ltb i 20)) [
    | inl near ↦ ground (arith, l.direct i, l.owned.inside i)
    | inr far ↦ ground (arith, l.table (i - 20), l.owned.inside (276 + (i - 20)))
  ];
}

module _ (v0 v : Fs) (d0 d : Inode) (n tabs : ℕ) (own : ℕ → ℕ) (src : Bytes) (len ino : ℕ)
    (l : Layout v0 v d0 d n tabs own) (st : Stored v own src n len n) (fits : Fits d)
    (en : n ≡ (len + 511) / 512) (es : d.size ≡ len) (small : len ≤ max_file)
    (lt : ino < ino_count) where
  pub reads_saved : ReadsAs (saved v ino d) ino src len
  reads_saved buf maxlen = read_inode_lem w e src buf len maxlen (alike.size ∙ es) (
      read_all_lem w e (min len maxlen) own src at holds ((min len maxlen + 511) / 512) 0 buf
        (omega arith))
    where
      w : Fs
      w = saved v ino d

      e : Inode
      e = inode_read w ino

      alike : Alike e d
      alike = saved_self v ino d fits

      at : (j : ℕ) → j * 512 < min len maxlen → inode_block_at w e j ≡ some (own j)
      at j h =
          inode_block_at-same v w d e j (λ l x le. saved_data v ino l x d lt le) alike.blocks
          ∙ inode_block_at-Layout v0 v d0 d n tabs j own l (omega arith) (omega arith)

      holds :
          (j x : ℕ)
          → x < 512
          → j * 512 + x < min len maxlen
          → w.disk (data_lba + own j) x ≡ src (j * 512 + x)
      holds j x hx h =
          saved_data v ino (data_lba + own j) x d lt (omega arith)
          ∙ st j x (omega arith)
          ∙ block_of_at src j n len x hx (omega arith) en
