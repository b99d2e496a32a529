-- ===== src/Fs/Contents.antt =====
-- What kernel/cofeufs.cpp stores in the blocks of a file, and what it reads from them.
use cofeuos.Base.{
  ℕ, zero, suc, ◌+◌, ◌-◌, ◌*◌, ◌/◌, ◌%◌, ◌<◌, ◌≤◌, ◌≡◌, ◌≢◌, refl, ap, ◌∙◌, inl, inr, Bool, true,
  false, ◌&&◌, Option, none, some, ltb, leb, ◌==◌, if◌then◌else◌, arith, Bool-cases,
}
use cofeuos.Fs.{Fs, Inode, Bytes, le32, data_lba, data_count, paste, write}
use cofeuos.Fs.Space.{inode_block_at, inode_map_next, Mapping}
use cofeuos.Fs.Files.{map_all, store_all, store_block, block_of, read_all, read_block, read_chunk}
use cofeuos.Fs.Codec.{write_at}
use cofeuos.Fs.Layout.{Layout, Laid}
use cofeuos.Fs.Growth.{Mapped, IsFull, inode_map_next_lem}

module _ (v0 : Fs) (d0 : Inode) where
  -- All blocks up to `n` are mapped, or the disk is full.
  abbrev pub AllMapped : ℕ → Fs × Inode × Bool → Type 0
  AllMapped n (v, d, true) = Laid v0 d0 v d n
  AllMapped n (v, d, false) = ((m : ℕ) × (m < n) × Laid v0 d0 v d m) × IsFull v

  map_step :
      (n t : ℕ) (m : Mapping) (rest : Fs × Inode × Bool)
      → Mapped v0 d0 n m
      → n < t
      → (Laid v0 d0 m.0 m.1 (n + 1) → AllMapped t rest)
      → AllMapped t (elim m.2 [ none ↦ (m.0, m.1, false) | some b ↦ rest ])
  map_step n t (v, d, none) rest (l, full) le next = ((n, le, l), full)
  map_step n t (v, d, some b) rest l le next = next l

  pub map_all_lem :
      (k n t : ℕ) (v : Fs) (d : Inode)
      → Laid v0 d0 v d n
      → n + k ≡ t
      → t ≤ 276
      → AllMapped t (map_all k v d)
  unfolding map_all
  map_all_lem zero n t v d l e le = let same : t ≡ n = omega arith in rw same l
  map_all_lem (suc k) n t v d l e le =
      let m = inode_map_next v d in
      map_step n t m (map_all k m.0 m.1) (inode_map_next_lem v0 d0 n v d l (omega arith))
        (omega arith) (λ l1. map_all_lem k (n + 1) t m.0 m.1 l1 (omega arith) le)

-- The block of logical number `i`.
pub inode_block_at-Layout :
    (v0 v : Fs) (d0 d : Inode) (n tabs i : ℕ) (own : ℕ → ℕ)
    → Layout v0 v d0 d n tabs own
    → n ≤ 276
    → i < n
    → inode_block_at v d i ≡ some (own i)
unfolding inode_block_at
inode_block_at-Layout v0 v d0 d n tabs i own l le lt =
    let small : own i < data_count = l.owned.inside i (ground arith) in
    elim (Bool-cases (ltb i 20)) [
      | inl near ↦ ground (arith, l.direct i)
      | inr far ↦
          let few : tabs ≤ 2 = l.few in
          let room : n ≤ 20 + 128 * tabs = l.room in
          let t_less : (i - 20) / 128 < tabs = ground arith in
          let small_table : own (276 + (i - 20) / 128) < data_count =
            l.owned.inside (276 + (i - 20) / 128) (ground arith) in
          let tbl : d.blocks (20 + (i - 20) / 128) ≡ own (276 + (i - 20) / 128) =
            ground (arith, l.table ((i - 20) / 128)) in
          let back : 20 + 128 * ((i - 20) / 128) + (i - 20) % 128 ≡ i = ground arith in
          let ptr : le32 (v.disk (data_lba + own (276 + (i - 20) / 128))) (4 * ((i - 20) % 128))
              ≡ own i =
            ground (arith, l.pointer ((i - 20) / 128) ((i - 20) % 128)) in
          ground arith
    ]

store_step :
    (k i b : ℕ) (v : Fs) (d : Inode) (src : Bytes) (need len : ℕ)
    → inode_block_at v d i ≡ some b
    → store_all (suc k) i v d src need len
      ≡ store_all k (i + 1) (write v (data_lba + b) (block_of src i need len)) d src need len
unfolding store_all
store_step k i b v d src need len e =
    ap
      (λ o.
        let s = store_block v src i need len o in
        let rest = store_all k (i + 1) s.0 d src need len in
        elim s.1 as (λ x. Fs × Bool) [ false ↦ (s.0, false) | true ↦ rest ])
      e

-- The contents of the first `m` blocks.
abbrev pub Stored : Fs → (ℕ → ℕ) → Bytes → ℕ → ℕ → ℕ → Type 0
Stored v own src need len m =
    (j x : ℕ) → j < m → v.disk (data_lba + own j) x ≡ block_of src j need len x

module _ (v0 : Fs) (d0 d : Inode) (n tabs : ℕ) (own : ℕ → ℕ) (few : n ≤ 276) where
  Layout-store :
      (v : Fs) (i : ℕ) (f : Bytes)
      → Layout v0 v d0 d n tabs own
      → i < n
      → Layout v0 (write v (data_lba + own i) f) d0 d n tabs own
  Layout-store v i f l lt = record {
    owned = l.owned;
    few = l.few;
    room = l.room;
    direct = l.direct;
    table = l.table;
    pointer = λ t j ht hj.
        let far : own (276 + t) ≢ own i = (λ h.
          let same : 276 + t ≡ i =
            l.owned.apart (276 + t) i (ground (arith, ht)) (ground arith) h in
          omega arith) in
        ground (arith, l.pointer t j);
    low = λ k x h. ground (arith, l.low k x h);
    others = λ c x h.
        let far : own i ≢ c = l.owned.fresh i c (ground arith) h in ground (arith, l.others c x h);
    same = l.same;
  }

  Stored-step :
      (v : Fs) (src : Bytes) (len i : ℕ)
      → Layout v0 v d0 d n tabs own
      → i < n
      → Stored v own src n len i
      → Stored (write v (data_lba + own i) (block_of src i n len)) own src n len (i + 1)
  Stored-step v src len i l lt st j x h = elim (Bool-cases (j == i)) [
    | inl e ↦
        let same : j ≡ i = ground arith in
        rw same (write_at v (data_lba + own i) (data_lba + own i) x (block_of src i n len) refl)
    | inr ne ↦
        let before : j < n = omega arith in
        let far : own j ≢ own i = (λ h.
          let same : j ≡ i = l.owned.apart j i (ground (arith, before)) (ground (arith, lt)) h in
          ground arith) in
        ground (arith, st j x)
  ]

  -- Every block of a file is stored in its place, and nothing else is.
  pub store_all_lem :
      (k i : ℕ) (v : Fs) (src : Bytes) (len : ℕ)
      → Layout v0 v d0 d n tabs own
      → Stored v own src n len i
      → i + k ≡ n
      → (v' : Fs) × (store_all k i v d src n len ≡ (v', true))
        × Layout v0 v' d0 d n tabs own
        × Stored v' own src n len n
  unfolding store_all
  store_all_lem zero i v src len l st e =
      let same : i ≡ n = omega arith in (v, refl, l, λ j x h. st j x (omega arith))
  store_all_lem (suc k) i v src len l st e =
      let at : inode_block_at v d i ≡ some (own i) =
        inode_block_at-Layout v0 v d0 d n tabs i own l few (omega arith) in
      let v1 = write v (data_lba + own i) (block_of src i n len) in
      let (v', run, l', st') =
        store_all_lem k (i + 1) v1 src len (Layout-store v i _ l (omega arith))
          (Stored-step v src len i l (omega arith) st) (omega arith) in
      (v', store_step k i (own i) v d src n len at ∙ run, l', st')

read_run :
    (k i b : ℕ) (v : Fs) (d : Inode) (buf : Bytes) (to_read : ℕ)
    → inode_block_at v d i ≡ some b
    → read_all (suc k) i v d buf to_read
      ≡ read_all k
          (i + 1)
          v
          d
          (paste buf (i * 512) (read_chunk i to_read) (v.disk (data_lba + b)))
          to_read
unfolding read_all
read_run k i b v d buf to_read e =
    ap
      (λ o. elim (read_block v buf i to_read o) as (λ x. Option Bytes) [
        | none ↦ none
        | some buf' ↦ read_all k (i + 1) v d buf' to_read
      ])
      e

-- The bytes from block `i` on are read, as far as `to_read`, and no others of the buffer change.
abbrev pub HasRead : ℕ → ℕ → Bytes → Bytes → Option Bytes → Type 0
HasRead i to_read buf c none = ⊥
HasRead i to_read buf c (some buf') =
    (y : ℕ) → buf' y ≡ (if leb (i * 512) y && ltb y to_read then c y else buf y)

module _ (v : Fs) (d : Inode) (to_read : ℕ) (own : ℕ → ℕ) (c : Bytes)
    (at : (j : ℕ) → j * 512 < to_read → inode_block_at v d j ≡ some (own j))
    (holds : (j x : ℕ)
      → x < 512
      → j * 512 + x < to_read
      → v.disk (data_lba + own j) x ≡ c (j * 512 + x)) where
  read_step :
      (i : ℕ) (buf : Bytes) (o : Option Bytes)
      → i * 512 < to_read
      → HasRead
          (i + 1)
          to_read
          (paste buf (i * 512) (read_chunk i to_read) (v.disk (data_lba + own i)))
          c
          o
      → HasRead i to_read buf c o
  read_step i buf none lt h = h
  read_step i buf (some buf') lt h = λ y.
      elim (Bool-cases (leb (i * 512) y && ltb y (i * 512 + read_chunk i to_read))) [
        | inl here ↦
            let inside : y < to_read = ground arith in
            let back : i * 512 + (y - i * 512) ≡ y = ground arith in
            let got : v.disk (data_lba + own i) (y - i * 512) ≡ c (i * 512 + (y - i * 512)) =
              holds i (y - i * 512) (ground arith) (omega arith) in
            ground (arith, h y)
        | inr out ↦ ground (arith, h y)
      ]

  pub read_all_lem :
      (k i : ℕ) (buf : Bytes)
      → i + k ≡ (to_read + 511) / 512
      → HasRead i to_read buf c (read_all k i v d buf to_read)
  unfolding read_all
  read_all_lem zero i buf e = λ y. ground arith
  read_all_lem (suc k) i buf e =
      let buf1 = paste buf (i * 512) (read_chunk i to_read) (v.disk (data_lba + own i)) in
      rw (read_run k i (own i) v d buf to_read (at i (omega arith))) (
        read_step i buf (read_all k (i + 1) v d buf1 to_read) (omega arith)
          (read_all_lem k (i + 1) buf1 (omega arith)))
