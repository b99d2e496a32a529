-- ===== src/Fs/Tables.antt =====
-- The tables whose blocks kernel/cofeufs.cpp's `inode_free_blocks` gives back.
use cofeuos.Base.{
  ℕ, zero, suc, ◌+◌, ◌*◌, ◌<◌, ◌≤◌, ◌≡◌, ◌≢◌, refl, ap, ◌∙◌, inl, inr, true, false, not, ◌&&◌, ltb,
  ◌==◌, if◌then◌else◌, arith, Bool-cases,
}
use cofeuos.Bitmap.{test}
use cofeuos.Fs.{Fs, Inode, Bytes, le32, nil, data_lba, data_count}
use cofeuos.Fs.Space.{inode_free_blocks, free_direct, free_tables, free_pointers, block_free}
use cofeuos.Fs.Blocks.{IsMap}
use cofeuos.Fs.Slots.{empty_if, empty_if-off, free_direct-later}
use cofeuos.Fs.Release.{
  free_if, free_each, Less, Less-refl, Less-trans, free_if-Less, free_if_at, free_if_off,
  free_each-Less, free_each_at, free_each_off, stays_free,
}

free_each-same :
    (k i : ℕ) (v : Fs) (f g : ℕ → ℕ)
    → ((j : ℕ) → i ≤ j → f j ≡ g j)
    → free_each k i v f ≡ free_each k i v g
unfolding free_each
free_each-same zero i v f g same = refl
free_each-same (suc k) i v f g same =
    ap (λ b. free_each k (i + 1) (free_if v b) f) (same i (omega arith))
    ∙ free_each-same k (i + 1) (free_if v (g i)) f g (λ j le. same j (omega arith))

free_pointers-each :
    (k j : ℕ) (v : Fs) (sec : Bytes)
    → free_pointers k j v sec ≡ free_each k j v (λ i. le32 sec (4 * i))
unfolding free_pointers free_each
free_pointers-each zero j v sec = refl
free_pointers-each (suc k) j v sec = free_pointers-each k (j + 1) (free_if v (le32 sec (4 * j))) sec

-- The blocks of a table, and then the table.
abbrev pub pointers : Fs → ℕ → ℕ → ℕ
pointers v tbl j = le32 (v.disk (data_lba + tbl)) (4 * j)

abbrev pub free_table : Fs → ℕ → Fs
free_table v tbl =
    if not (tbl == nil) && ltb tbl data_count
    then block_free (free_each 128 0 v (pointers v tbl)) tbl
    else v

free_direct-each :
    (k i : ℕ) (v : Fs) (d : Inode) → (free_direct k i v d).0 ≡ free_each k i v d.blocks
unfolding free_direct free_each
free_direct-each zero i v d = refl
free_direct-each (suc k) i v d =
    free_direct-each k (i + 1) (free_if v (d.blocks i)) (empty_if d i)
    ∙ free_each-same k (i + 1) (free_if v (d.blocks i)) _ d.blocks
        (λ j le. empty_if-off d i j (omega arith))

raw_table : Fs → ℕ → Fs
raw_table v tbl =
    if not (tbl == nil) && ltb tbl data_count
    then block_free (free_pointers 128 0 v (v.disk (data_lba + tbl))) tbl
    else v

raw_table_lem : (v : Fs) (tbl : ℕ) → raw_table v tbl ≡ free_table v tbl
unfolding raw_table
raw_table_lem v tbl =
    ap (λ w. if not (tbl == nil) && ltb tbl data_count then block_free w tbl else v)
      (free_pointers-each 128 0 v (v.disk (data_lba + tbl)))

free_tables-raw :
    (v : Fs) (d : Inode)
    → (free_tables 2 0 v d).0 ≡ raw_table (raw_table v (d.blocks 20)) (d.blocks 21)
unfolding free_tables raw_table
free_tables-raw v d =
    ap (raw_table (raw_table v (d.blocks 20))) (empty_if-off d 20 21 (omega arith))

-- `inode_free_blocks` gives back the direct blocks, and then those of each table.
pub inode_free_blocks-tables :
    (v : Fs) (d : Inode)
    → (inode_free_blocks v d).0
      ≡ free_table (free_table (free_each 20 0 v d.blocks) (d.blocks 20)) (d.blocks 21)
unfolding inode_free_blocks
inode_free_blocks-tables v d =
    let r = free_direct 20 0 v d in
    free_tables-raw r.0 r.1
    ∙ ap (λ t. raw_table (raw_table r.0 t) (r.1.blocks 21))
        (free_direct-later 20 0 20 v d (omega arith))
    ∙ ap (raw_table (raw_table r.0 (d.blocks 20))) (free_direct-later 20 0 21 v d (omega arith))
    ∙ ap (λ w. raw_table (raw_table w (d.blocks 20)) (d.blocks 21)) (free_direct-each 20 0 v d)
    ∙ ap (λ w. raw_table w (d.blocks 21)) (raw_table_lem (free_each 20 0 v d.blocks) (d.blocks 20))
    ∙ raw_table_lem (free_table (free_each 20 0 v d.blocks) (d.blocks 20)) (d.blocks 21)

module _ (v : Fs) (tbl : ℕ) (m : IsMap v.bm) where
  before_table : Less v (free_each 128 0 v (pointers v tbl))
  before_table = free_each-Less 128 0 v (pointers v tbl) m

  small_table :
      tbl < data_count → free_table v tbl ≡ free_if (free_each 128 0 v (pointers v tbl)) tbl
  small_table lt =
      let there : not (tbl == nil) && ltb tbl data_count ≡ true = ground arith in rw there refl

  no_table : data_count ≤ tbl → free_table v tbl ≡ v
  no_table le =
      let gone : not (tbl == nil) && ltb tbl data_count ≡ false = ground arith in rw gone refl

  pub free_table-Less : Less v (free_table v tbl)
  free_table-Less = elim (Bool-cases (ltb tbl data_count)) [
    | inl lt ↦ rw (small_table (ground arith)) (
        Less-trans _ _ _ before_table
          (free_if-Less (free_each 128 0 v (pointers v tbl)) tbl before_table.map))
    | inr out ↦ rw (no_table (ground arith)) (Less-refl v m)
  ]

  pub free_table_at : tbl < data_count → test (free_table v tbl).bm tbl ≡ false
  free_table_at lt =
      rw (small_table lt) (free_if_at (free_each 128 0 v (pointers v tbl)) tbl before_table.map lt)

  pub free_table_pointer :
      (j : ℕ)
      → tbl < data_count
      → j < 128
      → pointers v tbl j < data_count
      → test (free_table v tbl).bm (pointers v tbl j) ≡ false
  free_table_pointer j lt hj small = rw (small_table lt) (
      stays_free _ _ (pointers v tbl j)
        (free_if-Less (free_each 128 0 v (pointers v tbl)) tbl before_table.map)
        (free_each_at 128 0 j v (pointers v tbl) m (omega arith) hj small))

  pub free_table_off :
      (x : ℕ)
      → (tbl < data_count → tbl ≢ x)
      → ((j : ℕ)
          → tbl < data_count
          → j < 128
          → pointers v tbl j < data_count
          → pointers v tbl j ≢ x)
      → test (free_table v tbl).bm x ≡ test v.bm x
  free_table_off x ne nes = elim (Bool-cases (ltb tbl data_count)) [
    | inl lt ↦ rw (small_table (ground arith)) (
        free_if_off (free_each 128 0 v (pointers v tbl)) tbl before_table.map x ne
        ∙ free_each_off 128 0 x v (pointers v tbl) m (λ j lo hi. nes j (ground arith) hi))
    | inr out ↦ rw (no_table (ground arith)) refl
  ]

pub inode_free_blocks-Less : (v : Fs) (d : Inode) → IsMap v.bm → Less v (inode_free_blocks v d).0
inode_free_blocks-Less v d m =
    let a : Less v (free_each 20 0 v d.blocks) = free_each-Less 20 0 v d.blocks m in
    let b : Less _ (free_table (free_each 20 0 v d.blocks) (d.blocks 20)) =
      free_table-Less _ (d.blocks 20) a.map in
    rw (inode_free_blocks-tables v d)
      (Less-trans _ _ _ a (Less-trans _ _ _ b (free_table-Less _ (d.blocks 21) b.map)))
