-- ===== src/Fs/Growth.antt =====
-- What the mapping of kernel/cofeufs.cpp's `inode_map_next` adds to a file.
use cofeuos.Base.{
  ℕ, zero, suc, ◌+◌, ◌-◌, ◌*◌, ◌<◌, ◌≤◌, ◌≡◌, ◌≢◌, refl, inl, inr, true, false, Option, none, some,
  ltb, leb, ◌==◌, arith, Bool-cases,
}
use cofeuos.Bitmap.{test}
use cofeuos.Fs.{Fs, Inode, le32, nil, data_lba, data_count}
use cofeuos.Fs.Space.{
  slot_scan, block_alloc, fill_direct, fill_pointer, make_table, table_for, fill_or, use_table,
  map_tables, inode_map_next, Mapping,
}
use cofeuos.Fs.Blocks.{Allocated, block_alloc_lem}
use cofeuos.Fs.Layout.{Layout, Laid, Layout-direct, Layout-table, Layout-pointer}

slot_first :
    (k i m : ℕ) (f : ℕ → ℕ)
    → i ≤ m
    → m < i + k
    → ((j : ℕ) → i ≤ j → j < m → f j ≢ nil)
    → f m ≡ nil
    → slot_scan k f i ≡ some m
unfolding slot_scan
slot_first zero i m f le lt full e = absurd (omega arith)
slot_first (suc k) i m f le lt full e = elim (Bool-cases (i == m)) [
  | inl same ↦ ground arith
  | inr ne ↦
      let here : f i ≢ nil = full i (omega arith) (ground arith) in
      let rest : slot_scan k f (i + 1) ≡ some m =
        slot_first k (i + 1) m f (ground arith) (omega arith) (λ j lo hi. full j (omega arith) hi)
          e in
      ground arith
]

slot_full :
    (k i : ℕ) (f : ℕ → ℕ) → ((j : ℕ) → i ≤ j → j < i + k → f j ≢ nil) → slot_scan k f i ≡ none
unfolding slot_scan
slot_full zero i f full = refl
slot_full (suc k) i f full =
    let here : f i ≢ nil = full i (omega arith) (omega arith) in
    let rest : slot_scan k f (i + 1) ≡ none =
      slot_full k (i + 1) f (λ j lo hi. full j (omega arith) (omega arith)) in
    ground arith

-- Every data block is taken.
abbrev pub IsFull : Fs → Type 0
IsFull v = (j : ℕ) → j < data_count → test v.bm j ≡ true

module _ (v0 : Fs) (d0 : Inode) (n : ℕ) where
  -- One more block is mapped, or none is left on the disk.
  abbrev pub Mapped : Mapping → Type 0
  Mapped (v, d, none) = Laid v0 d0 v d n × IsFull v
  Mapped (v, d, some b) = Laid v0 d0 v d (n + 1)

  fill_direct_lem :
      (v : Fs) (d : Inode) (tabs : ℕ) (own : ℕ → ℕ)
      → Layout v0 v d0 d n tabs own
      → n < 20
      → (r : Fs × Option ℕ) → Allocated v r
      → Mapped (fill_direct d n r)
  fill_direct_lem v d tabs own l lt (v', none) (e, full) = rw e ((tabs, own, l), full)
  fill_direct_lem v d tabs own l lt (v', some b) (small, free, first, e) =
      rw e (tabs, _, Layout-direct v0 v d0 d n tabs own l b small free lt)

  fill_pointer_lem :
      (v : Fs) (d : Inode) (tabs : ℕ) (own : ℕ → ℕ) (t j : ℕ)
      → Layout v0 v d0 d n tabs own
      → t < tabs
      → j < 128
      → n ≡ 20 + 128 * t + j
      → (r : Fs × Option ℕ) → Allocated v r
      → Mapped (fill_pointer d (own (276 + t)) j r)
  fill_pointer_lem v d tabs own t j l ht hj en (v', none) (e, full) = rw e ((tabs, own, l), full)
  fill_pointer_lem v d tabs own t j l ht hj en (v', some b) (small, free, first, e) =
      rw e (tabs, _, Layout-pointer v0 v d0 d n tabs own l b small free t j ht hj en)

  -- Table `t` is there, or no block is left for it.
  abbrev TableAt : ℕ → Mapping → Type 0
  TableAt t (v, d, none) = Laid v0 d0 v d n × IsFull v
  TableAt t (v, d, some tbl) =
      (tabs : ℕ) × (own : ℕ → ℕ) × Layout v0 v d0 d n tabs own × (t < tabs) × (tbl ≡ own (276 + t))

  make_table_lem :
      (v : Fs) (d : Inode) (tabs : ℕ) (own : ℕ → ℕ)
      → Layout v0 v d0 d n tabs own
      → tabs < 2
      → n ≤ 276
      → (r : Fs × Option ℕ) → Allocated v r
      → TableAt tabs (make_table d tabs r)
  make_table_lem v d tabs own l less le (v', none) (e, full) = rw e ((tabs, own, l), full)
  make_table_lem v d tabs own l less le (v', some b) (small, free, first, e) = rw e (
    tabs + 1,
    _,
    Layout-table v0 v d0 d n tabs own l b small free less le,
    omega arith,
    ground arith,
  )

  table_for_lem :
      (v : Fs) (d : Inode) (t : ℕ)
      → Laid v0 d0 v d n
      → t < 2
      → 20 + 128 * t ≤ n
      → n ≤ 276
      → TableAt t (table_for v d t)
  unfolding table_for
  table_for_lem v d t (tabs, own, l) less lo hi = elim (Bool-cases (ltb t tabs)) [
    | inl there ↦
        let small : own (276 + t) < data_count = l.owned.inside (276 + t) (ground arith) in
        let e : d.blocks (20 + t) ≡ own (276 + t) = ground (arith, l.table t less) in
        let some_there : (own (276 + t) == nil) ≡ false = ground arith in
        rw (e, some_there) (tabs, own, l, ground arith, refl)
    | inr none_there ↦
        let room : n ≤ 20 + 128 * tabs = l.room in
        let same : t ≡ tabs = ground arith in
        let e : d.blocks (20 + t) ≡ nil = ground (arith, l.table t less) in
        rw (e, same)
          (make_table_lem v d tabs own l (omega arith) hi (block_alloc v) (block_alloc_lem v))
  ]

  pointer_there :
      (v : Fs) (d : Inode) (tabs : ℕ) (own : ℕ → ℕ) (t j : ℕ)
      → Layout v0 v d0 d n tabs own
      → t < tabs
      → j < 128
      → 20 + 128 * t + j < n
      → le32 (v.disk (data_lba + own (276 + t))) (4 * j) ≢ nil
  pointer_there v d tabs own t j l ht hj lt h =
      let small : own (20 + 128 * t + j) < data_count =
        l.owned.inside (20 + 128 * t + j) (ground arith) in
      let e : le32 (v.disk (data_lba + own (276 + t))) (4 * j) ≡ own (20 + 128 * t + j) =
        ground (arith, l.pointer t j ht hj) in
      omega arith

  pointer_nil :
      (v : Fs) (d : Inode) (tabs : ℕ) (own : ℕ → ℕ) (t j : ℕ)
      → Layout v0 v d0 d n tabs own
      → t < tabs
      → j < 128
      → n ≤ 20 + 128 * t + j
      → le32 (v.disk (data_lba + own (276 + t))) (4 * j) ≡ nil
  pointer_nil v d tabs own t j l ht hj le = ground (arith, l.pointer t j ht hj)

  scan_or_lem :
      (v : Fs) (d : Inode) (tabs : ℕ) (own : ℕ → ℕ) (t : ℕ) (rest : Mapping)
      → Layout v0 v d0 d n tabs own
      → t < tabs
      → 20 + 128 * t ≤ n
      → (20 + 128 * (t + 1) ≤ n → Mapped rest)
      → Mapped (
          fill_or v d
            (own (276 + t))
            (slot_scan 128 (λ j. le32 (v.disk (data_lba + own (276 + t))) (4 * j)) 0)
            rest)
  scan_or_lem v d tabs own t rest l ht lo next = elim (Bool-cases (ltb n (20 + 128 * (t + 1)))) [
    | inl here ↦
        let found : slot_scan 128 (λ j. le32 (v.disk (data_lba + own (276 + t))) (4 * j)) 0
            ≡ some (n - (20 + 128 * t)) =
          slot_first 128 0 (n - (20 + 128 * t)) _ (omega arith) (ground arith)
            (λ j a b. pointer_there v d tabs own t j l ht (ground arith) (omega arith))
            (pointer_nil v d tabs own t (n - (20 + 128 * t)) l ht (ground arith) (omega arith)) in
        rw found (
          fill_pointer_lem v d tabs own t (n - (20 + 128 * t)) l ht (ground arith) (omega arith)
            (block_alloc v) (block_alloc_lem v))
    | inr there ↦
        let full : slot_scan 128 (λ j. le32 (v.disk (data_lba + own (276 + t))) (4 * j)) 0 ≡ none =
          slot_full 128 0 _
            (λ j a b. pointer_there v d tabs own t j l ht (omega arith) (ground arith)) in
        rw full (next (ground arith))
  ]

  use_table_lem :
      (t : ℕ) (r rest : Mapping)
      → TableAt t r
      → 20 + 128 * t ≤ n
      → (20 + 128 * (t + 1) ≤ n → Mapped rest)
      → Mapped (use_table r rest)
  use_table_lem t (v, d, none) rest at lo next = at
  use_table_lem t (v, d, some tbl) rest (tabs, own, l, ht, e) lo next =
      let small : own (276 + t) < data_count = l.owned.inside (276 + t) (ground arith) in
      let good : leb data_count (own (276 + t)) ≡ false = ground arith in
      rw (e, good) (scan_or_lem v d tabs own t rest l ht lo next)

  table-Laid : (t : ℕ) (r : Mapping) → TableAt t r → Laid v0 d0 r.0 r.1 n
  table-Laid t (v, d, none) (l, full) = l
  table-Laid t (v, d, some tbl) (tabs, own, l, ht, e) = (tabs, own, l)

  map_tables_lem :
      (k t : ℕ) (v : Fs) (d : Inode)
      → Laid v0 d0 v d n
      → t + k ≡ 2
      → 20 + 128 * t ≤ n
      → n < 276
      → Mapped (map_tables k t v d)
  unfolding map_tables
  map_tables_lem zero t v d l e lo hi = absurd (omega arith)
  map_tables_lem (suc k) t v d l e lo hi =
      let at : TableAt t (table_for v d t) = table_for_lem v d t l (omega arith) lo (omega arith) in
      use_table_lem t (table_for v d t) _ at lo (λ more.
        map_tables_lem k (t + 1) (table_for v d t).0 (table_for v d t).1
          (table-Laid t (table_for v d t) at) (omega arith) more hi)

  direct_there :
      (v : Fs) (d : Inode) (tabs : ℕ) (own : ℕ → ℕ) (j : ℕ)
      → Layout v0 v d0 d n tabs own
      → j < 20
      → j < n
      → d.blocks j ≢ nil
  direct_there v d tabs own j l hj lt h =
      let small : own j < data_count = l.owned.inside j (ground arith) in
      let e : d.blocks j ≡ own j = ground (arith, l.direct j hj) in omega arith

  -- The next block is mapped, for a file that can still grow, unless all data blocks are taken.
  pub inode_map_next_lem :
      (v : Fs) (d : Inode) → Laid v0 d0 v d n → n < 276 → Mapped (inode_map_next v d)
  unfolding inode_map_next
  inode_map_next_lem v d (tabs, own, l) lt = elim (Bool-cases (ltb n 20)) [
    | inl small ↦
        let found : slot_scan 20 d.blocks 0 ≡ some n =
          slot_first 20 0 n d.blocks (omega arith) (ground arith)
            (λ j a b. direct_there v d tabs own j l (ground arith) b)
            (ground (arith, l.direct n)) in
        rw found (fill_direct_lem v d tabs own l (ground arith) (block_alloc v) (block_alloc_lem v))
    | inr big ↦
        let full : slot_scan 20 d.blocks 0 ≡ none =
          slot_full 20 0 d.blocks
            (λ j a b. direct_there v d tabs own j l (omega arith) (ground arith)) in
        rw full (map_tables_lem 2 0 v d (tabs, own, l) refl (ground arith) lt)
  ]
