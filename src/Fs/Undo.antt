-- ===== src/Fs/Undo.antt =====
-- A file's blocks given back: kernel/cofeufs.cpp's `inode_free_blocks` undoes `inode_map_next`.
use cofeuos.Base.{
  ℕ, ◌+◌, ◌-◌, ◌*◌, ◌<◌, ◌≤◌, ◌≡◌, ◌≢◌, sym, subst, ap, ◌∙◌, ◌⊎◌, inl, inr, true, false, ltb, ◌==◌,
  if◌then◌else◌, arith, Bool-cases,
}
use cofeuos.Bitmap.{test}
use cofeuos.Fs.{Fs, Inode, le32, nil, data_lba, data_count}
use cofeuos.Fs.Space.{inode_free_blocks}
use cofeuos.Fs.Blocks.{IsMap}
use cofeuos.Fs.Layout.{Layout, live}
use cofeuos.Fs.Release.{
  free_each, Less, Less-trans, free_each-Less, free_each_at, free_each_off, stays_free,
}
use cofeuos.Fs.Tables.{
  pointers, free_table, inode_free_blocks-tables, free_table-Less, free_table_at,
  free_table_pointer, free_table_off,
}

module _ (v0 v : Fs) (d0 d : Inode) (n tabs : ℕ) (own : ℕ → ℕ) (l : Layout v0 v d0 d n tabs own)
    (le : n ≤ 276) where
  direct_own : (j : ℕ) → j < 20 → d.blocks j < data_count → (j < n) × (d.blocks j ≡ own j)
  direct_own j h lt = ground (arith, l.direct j h)

  table_own :
      (t : ℕ)
      → t < 2
      → d.blocks (20 + t) < data_count
      → (t < tabs) × (d.blocks (20 + t) ≡ own (276 + t))
  table_own t h lt = ground (arith, l.table t h)

  pointer_own :
      (w : Fs) (t j : ℕ)
      → w.disk ≡ v.disk
      → t < 2
      → d.blocks (20 + t) < data_count
      → j < 128
      → pointers w (d.blocks (20 + t)) j < data_count
      → (20 + 128 * t + j < n) × (pointers w (d.blocks (20 + t)) j ≡ own (20 + 128 * t + j))
  pointer_own w t j e h lt hj small =
      let (there, same) = table_own t h lt in
      let moved : pointers w (d.blocks (20 + t)) j
          ≡ le32 (v.disk (data_lba + own (276 + t))) (4 * j) =
        ap (λ k. le32 (k (data_lba + d.blocks (20 + t))) (4 * j)) e
        ∙ ap (λ b. le32 (v.disk (data_lba + b)) (4 * j)) same in
      ground (arith, l.pointer t j there hj)

  s0 : Fs
  s0 = free_each 20 0 v d.blocks

  s1 : Fs
  s1 = free_table s0 (d.blocks 20)

  s2 : Fs
  s2 = free_table s1 (d.blocks 21)

  less0 : Less v s0
  unfolding s0
  less0 = free_each-Less 20 0 v d.blocks l.owned.map

  less1 : Less s0 s1
  unfolding s1
  less1 = free_table-Less s0 (d.blocks 20) less0.map

  less2 : Less s1 s2
  unfolding s2
  less2 = free_table-Less s1 (d.blocks 21) less1.map

  module _ (x : ℕ) (h : test v0.bm x ≡ true) where
    direct_not : (j : ℕ) → j < 20 → d.blocks j < data_count → d.blocks j ≢ x
    direct_not j hj lt e =
        let (small, same) = direct_own j hj lt in
        l.owned.fresh j x (ground (arith, small)) h (sym same ∙ e)

    table_not : (t : ℕ) → t < 2 → d.blocks (20 + t) < data_count → d.blocks (20 + t) ≢ x
    table_not t ht lt e =
        let (small, same) = table_own t ht lt in
        l.owned.fresh (276 + t) x (ground (arith, small)) h (sym same ∙ e)

    pointer_not :
        (w : Fs) (t j : ℕ)
        → w.disk ≡ v.disk
        → t < 2
        → d.blocks (20 + t) < data_count
        → j < 128
        → pointers w (d.blocks (20 + t)) j < data_count
        → pointers w (d.blocks (20 + t)) j ≢ x
    pointer_not w t j disk ht lt hj small e =
        let (less, same) = pointer_own w t j disk ht lt hj small in
        l.owned.fresh (20 + 128 * t + j) x (ground (arith, less)) h (sym same ∙ e)

    -- What was taken before the file was mapped is taken.
    keeps : test s2.bm x ≡ true
    unfolding s0 s1 s2
    keeps =
        free_table_off s1 (d.blocks 21) less1.map x (table_not 1 (omega arith))
          (λ j lt. pointer_not s1 1 j (less1.disk ∙ less0.disk) (omega arith) lt)
        ∙ free_table_off s0 (d.blocks 20) less0.map x (table_not 0 (omega arith))
            (λ j lt. pointer_not s0 0 j less0.disk (omega arith) lt)
        ∙ free_each_off 20 0 x v d.blocks l.owned.map (λ j lo hi. direct_not j hi)
        ∙ l.owned.kept x h

  module _ (w : Fs) (t : ℕ) (m : IsMap w.bm) (disk : w.disk ≡ v.disk) (ht : t < 2)
      (there : t < tabs) where
    table_is : d.blocks (20 + t) ≡ own (276 + t)
    table_is = ground (arith, l.table t ht)

    table_small : d.blocks (20 + t) < data_count
    table_small = rw table_is (l.owned.inside (276 + t) (ground (arith, there)))

    frees_table : test (free_table w (d.blocks (20 + t))).bm (own (276 + t)) ≡ false
    frees_table = rw (← table_is) (free_table_at w (d.blocks (20 + t)) m table_small)

    frees_pointer :
        (j : ℕ)
        → j < 128
        → 20 + 128 * t + j < n
        → test (free_table w (d.blocks (20 + t))).bm (own (20 + 128 * t + j)) ≡ false
    frees_pointer j hj lt =
        let small : own (20 + 128 * t + j) < data_count = l.owned.inside _ (ground arith) in
        let moved : pointers w (d.blocks (20 + t)) j
            ≡ le32 (v.disk (data_lba + own (276 + t))) (4 * j) =
          ap (λ k. le32 (k (data_lba + d.blocks (20 + t))) (4 * j)) disk
          ∙ ap (λ b. le32 (v.disk (data_lba + b)) (4 * j)) table_is in
        let cut : (if ltb (20 + 128 * t + j) n then own (20 + 128 * t + j) else nil)
            ≡ own (20 + 128 * t + j) =
          ground arith in
        let same : pointers w (d.blocks (20 + t)) j ≡ own (20 + 128 * t + j) =
          moved ∙ l.pointer t j there hj ∙ cut in
        subst (λ b. test (free_table w (d.blocks (20 + t))).bm b ≡ false) same
          (free_table_pointer w (d.blocks (20 + t)) m j table_small hj (rw same small))

    frees_number :
        (i : ℕ)
        → (i ≡ 276 + t) ⊎ ((20 + 128 * t ≤ i) × (i < 148 + 128 * t) × (i < n))
        → test (free_table w (d.blocks (20 + t))).bm (own i) ≡ false
    frees_number i (inl e) = rw e frees_table
    frees_number i (inr (lo, hi, lt)) =
        let back : i ≡ 20 + 128 * t + (i - (20 + 128 * t)) = omega arith in
        subst (λ j. test (free_table w (d.blocks (20 + t))).bm (own j) ≡ false) (sym back)
          (frees_pointer (i - (20 + 128 * t)) (omega arith) (omega arith))

  InTable : (i t : ℕ) → Type 0
  InTable i t = (t < tabs) × ((i ≡ 276 + t) ⊎ ((20 + 128 * t ≤ i) × (i < 148 + 128 * t) × (i < n)))

  -- A number in use is that of a direct block, or belongs to one of the two tables.
  number_cases : (i : ℕ) → live n tabs i ≡ true → ((i < 20) × (i < n)) ⊎ InTable i 0 ⊎ InTable i 1
  unfolding InTable
  number_cases i h =
      let few : tabs ≤ 2 = l.few in
      let room : n ≤ 20 + 128 * tabs = l.room in
      elim (Bool-cases (ltb i n)) [
        | inl data_block ↦ elim (Bool-cases (ltb i 20)) [
          | inl near ↦ inl (ground arith, ground arith)
          | inr far ↦ elim (Bool-cases (ltb i 148)) [
            | inl first ↦ inr (inl (ground arith, inr (ground arith, ground arith, ground arith)))
            | inr second ↦ inr (inr (ground arith, inr (ground arith, ground arith, ground arith)))
          ]
        ]
        | inr table_block ↦ elim (Bool-cases (i == 276)) [
          | inl first ↦ inr (inl (ground arith, inl (ground arith)))
          | inr second ↦ inr (inr (ground arith, inl (ground arith)))
        ]
      ]

  -- Every block of the file is free.
  frees : (i : ℕ) → live n tabs i ≡ true → test s2.bm (own i) ≡ false
  unfolding s0 s1 s2 InTable
  frees i h = elim (number_cases i h) [
    | inl (near, lt) ↦
        let same : d.blocks i ≡ own i = ground (arith, l.direct i) in
        let small : own i < data_count = l.owned.inside i h in
        stays_free s0 s2 (own i) (Less-trans _ _ _ less1 less2) (
          rw (← same)
            (free_each_at 20 0 i v d.blocks l.owned.map (omega arith) near (rw same small)))
    | inr (inl (there, which)) ↦
        stays_free s1 s2 (own i) less2
          (frees_number s0 0 less0.map less0.disk (omega arith) there i which)
    | inr (inr (there, which)) ↦
        frees_number s1 1 less1.map (less1.disk ∙ less0.disk) (omega arith) there i which
  ]

  restored : (x : ℕ) → test s2.bm x ≡ test v0.bm x
  restored x = elim (Bool-cases (test v0.bm x)) [
    | inl before ↦ keeps x before ∙ sym before
    | inr free ↦ elim (Bool-cases (test s2.bm x)) [
      | inl taken ↦ elim (l.owned.only x (less0.fewer x (less1.fewer x (less2.fewer x taken)))) [
        | inl old ↦ taken ∙ sym old
        | inr (i, h, e) ↦ absurd (ground (arith, frees i h, e))
      ]
      | inr gone ↦ gone ∙ sym free
    ]
  ]

  -- To give a file's blocks back leaves the bit map as it was before they were mapped, and the
  -- disk as it is.
  pub inode_free_blocks-Layout :
      let w = (inode_free_blocks v d).0 in
      IsMap w.bm × (w.disk ≡ v.disk) × ((x : ℕ) → test w.bm x ≡ test v0.bm x)
  unfolding s0 s1 s2
  inode_free_blocks-Layout =
      rw (inode_free_blocks-tables v d) (less2.map, less2.disk ∙ less1.disk ∙ less0.disk, restored)
