-- ===== src/Fs/Layout.antt =====
-- Where the blocks of a file lie while kernel/cofeufs.cpp maps them one by one.
use cofeuos.Base.{
  ℕ, ◌+◌, ◌*◌, ◌^◌, ◌<◌, ◌≤◌, ◌≡◌, ◌≢◌, refl, ap, inl, inr, Bool, true, false, ◌&&◌, ◌||◌, ltb, leb,
  ◌==◌, if◌then◌else◌, arith, Bool-cases,
}
use cofeuos.Bitmap.{test, mark}
use cofeuos.Fs.{Fs, Inode, Bytes, byte, le32, paste, write, nil, data_lba, data_count}
use cofeuos.Fs.Codec.{paste_at, paste_off, le32-byte}
use cofeuos.Fs.Space.{set_block}
use cofeuos.Fs.Blocks.{Owned, Owned-add, Owned-same, with_at, and_at}

-- The numbers in use: those below `n`, for the data, and from 276 on, for the tables.
abbrev pub live : ℕ → ℕ → ℕ → Bool
live n tabs i = ltb i n || leb 276 i && ltb i (276 + tabs)

-- An inode but for its blocks.
abbrev pub with_blocks : Inode → (ℕ → ℕ) → Inode
with_blocks d f = record d { blocks = f }

-- `n` blocks of a file and `tabs` tables, whose numbers are those of `own`, since `v0`.
pub record Layout (v0 v : Fs) (d0 d : Inode) (n tabs : ℕ) (own : ℕ → ℕ) : Type 0 where
  pub owned : Owned v0.bm v.bm (live n tabs) own
  pub few : tabs ≤ 2
  pub room : n ≤ 20 + 128 * tabs
  pub direct : (i : ℕ) → i < 20 → d.blocks i ≡ (if ltb i n then own i else nil)
  pub table : (t : ℕ) → t < 2 → d.blocks (20 + t) ≡ (if ltb t tabs then own (276 + t) else nil)
  pub pointer :
      (t j : ℕ)
      → t < tabs
      → j < 128
      → le32 (v.disk (data_lba + own (276 + t))) (4 * j)
        ≡ (if ltb (20 + 128 * t + j) n then own (20 + 128 * t + j) else nil)
  pub low : (l x : ℕ) → l < data_lba → v.disk l x ≡ v0.disk l x
  pub others : (b x : ℕ) → test v0.bm b ≡ true → v.disk (data_lba + b) x ≡ v0.disk (data_lba + b) x
  pub same : d ≡ with_blocks d0 d.blocks

-- Some such layout.
abbrev pub Laid : Fs → Inode → Fs → Inode → ℕ → Type 0
Laid v0 d0 v d n = (tabs : ℕ) × (own : ℕ → ℕ) × Layout v0 v d0 d n tabs own

-- The pointers of a table after one of them has been written.
pointer_at :
    (f : Bytes) (j b : ℕ) → b < 2 ^ 32 → le32 (paste f (4 * j) 4 (λ x. byte x b)) (4 * j) ≡ b
pointer_at f j b lt =
    let src : Bytes = λ x. byte x b in
    le32-byte (paste f (4 * j) 4 src) (4 * j) b
      (paste_at f src (4 * j) 4 (4 * j) 0 (omega arith) (omega arith))
      (paste_at f src (4 * j) 4 (4 * j + 1) 1 refl (omega arith))
      (paste_at f src (4 * j) 4 (4 * j + 2) 2 refl (omega arith))
      (paste_at f src (4 * j) 4 (4 * j + 3) 3 refl (omega arith)) lt

pointer_off :
    (f : Bytes) (j k b : ℕ)
    → k ≢ j
    → le32 (paste f (4 * j) 4 (λ x. byte x b)) (4 * k) ≡ le32 f (4 * k)
pointer_off f j k b ne = ground (
  arith,
  paste_off f (λ x. byte x b) (4 * j) 4 (4 * k),
  paste_off f (λ x. byte x b) (4 * j) 4 (4 * k + 1),
  paste_off f (λ x. byte x b) (4 * j) 4 (4 * k + 2),
  paste_off f (λ x. byte x b) (4 * j) 4 (4 * k + 3),
)

live_more : (n tabs i : ℕ) → n < 276 → live (n + 1) tabs i ≡ and_at (live n tabs) n i
live_more n tabs i lt = ground arith

live_table : (n tabs i : ℕ) → n ≤ 276 → live n (tabs + 1) i ≡ and_at (live n tabs) (276 + tabs) i
live_table n tabs i le = ground arith

module _ (v0 v : Fs) (d0 d : Inode) (n tabs : ℕ) (own : ℕ → ℕ) (l : Layout v0 v d0 d n tabs own)
    (b : ℕ) (lt : b < data_count) (free : test v.bm b ≡ false) where
  Owned-more : n < 276 → Owned v0.bm (mark v.bm b) (live (n + 1) tabs) (with_at own n b)
  Owned-more small =
      Owned-same v0.bm (mark v.bm b) _ (live (n + 1) tabs) (with_at own n b)
        (Owned-add v0.bm v.bm (live n tabs) own n b l.owned lt free (ground (arith, l.few)))
        (λ i. live_more n tabs i small)

  -- A direct block.
  pub Layout-direct :
      n < 20
      → Layout v0
          (record v { bm = mark v.bm b })
          d0
          (set_block d n b)
          (n + 1)
          tabs
          (with_at own n b)
  Layout-direct small = record {
    owned = Owned-more (omega arith);
    few = l.few;
    room = omega arith;
    direct = λ i h. ground (arith, l.direct i h);
    table = λ t h. ground (arith, l.table t h);
    pointer = λ t j h g. ground (arith, l.pointer t j h g);
    low = l.low;
    others = l.others;
    same = ap (λ e. with_blocks e (set_block d n b).blocks) l.same;
  }

  -- A block of the data region that is in use is not the one that was free.
  apart_free : (x : ℕ) → test v.bm x ≡ true → x ≢ b
  apart_free x h e = ground (arith, ap (test v.bm) e)

  table_taken : (t : ℕ) → t < tabs → test v.bm (own (276 + t)) ≡ true
  table_taken t h = l.owned.taken (276 + t) (ground (arith, h))

  -- A new table.
  pub Layout-table :
      tabs < 2
      → n ≤ 276
      → Layout v0
          (write (record v { bm = mark v.bm b }) (data_lba + b) (λ x. 255))
          d0
          (set_block d (20 + tabs) b)
          n
          (tabs + 1)
          (with_at own (276 + tabs) b)
  Layout-table less le = record {
    owned =
        Owned-same v0.bm (mark v.bm b) _ (live n (tabs + 1)) (with_at own (276 + tabs) b)
          (Owned-add v0.bm v.bm (live n tabs) own (276 + tabs) b l.owned lt free (ground arith))
          (λ i. live_table n tabs i le);
    few = omega arith;
    room = omega (arith, l.room);
    direct = λ i h. ground (arith, l.direct i h);
    table = λ t h. ground (arith, l.table t h);
    pointer = λ t j h g. elim (Bool-cases (t == tabs)) [
      | inl e ↦ ground (arith, l.room)
      | inr ne ↦
          let far : own (276 + t) ≢ b = apart_free _ (table_taken t (ground arith)) in
          ground (arith, l.pointer t j)
    ];
    low = λ k x h. ground (arith, l.low k x h);
    others = λ c x h.
        let far : c ≢ b = apart_free c (l.owned.kept c h) in ground (arith, l.others c x h);
    same = ap (λ e. with_blocks e (set_block d (20 + tabs) b).blocks) l.same;
  }

  abbrev pub with_pointer : ℕ → ℕ → Fs
  with_pointer t j =
      write (record v { bm = mark v.bm b }) (data_lba + own (276 + t))
        (paste (v.disk (data_lba + own (276 + t))) (4 * j) 4 (λ x. byte x b))

  pointer_more :
      (t j k i : ℕ)
      → t < tabs
      → k < tabs
      → i < 128
      → j < 128
      → n ≡ 20 + 128 * t + j
      → le32 ((with_pointer t j).disk (data_lba + own (276 + k))) (4 * i)
        ≡ (if ltb (20 + 128 * k + i) (n + 1) then with_at own n b (20 + 128 * k + i) else nil)
  pointer_more t j k i ht hk hi hj e = elim (Bool-cases (k == t)) [
    | inl s ↦
        let kt : k ≡ t = ground arith in
        elim (Bool-cases (i == j)) [
          | inl here ↦ ground (arith, pointer_at (v.disk (data_lba + own (276 + t))) j b)
          | inr ne ↦
              ground (arith, pointer_off (v.disk (data_lba + own (276 + t))) j i b, l.pointer k i)
        ]
    | inr far ↦
        let off : own (276 + k) ≢ own (276 + t) = (λ h.
          let same : 276 + k ≡ 276 + t =
            l.owned.apart (276 + k) (276 + t) (ground (arith, hk)) (ground (arith, ht)) h in
          ground arith) in
        ground (arith, l.pointer k i)
  ]

  -- A block whose number goes into place `j` of table `t`.
  pub Layout-pointer :
      (t j : ℕ)
      → t < tabs
      → j < 128
      → n ≡ 20 + 128 * t + j
      → Layout v0 (with_pointer t j) d0 d (n + 1) tabs (with_at own n b)
  Layout-pointer t j ht hj e = record {
    owned = Owned-more (omega (arith, l.few));
    few = l.few;
    room = omega (arith, l.few);
    direct = λ i h. ground (arith, l.direct i h);
    table = λ k h. ground (arith, l.table k h);
    pointer = λ k i hk hi.
        let few : tabs ≤ 2 = l.few in
        let table_no : (276 + k == n) ≡ false = ground arith in
        rw table_no (pointer_more t j k i ht hk hi hj e);
    low = λ k x h. ground (arith, l.low k x h);
    others = λ c x h.
        let far : own (276 + t) ≢ c = l.owned.fresh (276 + t) c (ground (arith, ht)) h in
        ground (arith, l.others c x h);
    same = l.same;
  }
