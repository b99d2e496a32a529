-- ===== src/Fs/Release.antt =====
-- The blocks that kernel/cofeufs.cpp's `inode_free_blocks` gives back.
use cofeuos.Base.{
  ℕ, zero, suc, ◌+◌, ◌<◌, ◌≤◌, ◌≡◌, ◌≢◌, refl, sym, ◌∙◌, inl, inr, true, false, not, ◌&&◌, ltb, leb,
  ◌==◌, if◌then◌else◌, arith, Bool-cases,
}
use cofeuos.Bitmap.{test}
use cofeuos.Fs.{Fs, nil, data_count}
use cofeuos.Fs.Space.{block_free}
use cofeuos.Fs.Blocks.{IsMap, clear-IsMap, cleared}

-- A block given back if its number is one.
abbrev pub free_if : Fs → ℕ → Fs
free_if v b = if not (b == nil) && ltb b data_count then block_free v b else v

-- The blocks that `f` names from `i` on.
unfoldable pub free_each : ℕ → ℕ → Fs → (ℕ → ℕ) → Fs
free_each zero i v f = v
free_each (suc k) i v f = free_each k (i + 1) (free_if v (f i)) f

-- Nothing but bits of the map has changed, and none has been set.
pub record Less (v w : Fs) : Type 0 where
  pub map : IsMap w.bm
  pub disk : w.disk ≡ v.disk
  pub fewer : (x : ℕ) → test w.bm x ≡ true → test v.bm x ≡ true

pub Less-refl : (v : Fs) → IsMap v.bm → Less v v
Less-refl v m = record { map = m; disk = refl; fewer = λ x h. h }

pub Less-trans : (u v w : Fs) → Less u v → Less v w → Less u w
Less-trans u v w p q = record {
  map = q.map;
  disk = q.disk ∙ p.disk;
  fewer = λ x h. p.fewer x (q.fewer x h);
}

module _ (v : Fs) (b : ℕ) (m : IsMap v.bm) where
  pub free_if-Less : Less v (free_if v b)
  unfolding block_free
  free_if-Less = elim (Bool-cases (ltb b data_count)) [
    | inl lt ↦
        let there : not (b == nil) && ltb b data_count ≡ true = ground arith in
        let in_range : leb data_count b ≡ false = ground arith in
        rw (there, in_range)
          record {
            map = clear-IsMap v.bm b m;
            disk = refl;
            fewer = λ x h. ground (arith, cleared v.bm b x m);
          }
    | inr out ↦
        let gone : not (b == nil) && ltb b data_count ≡ false = ground arith in
        rw gone (Less-refl v m)
  ]

  pub free_if_at : b < data_count → test (free_if v b).bm b ≡ false
  unfolding block_free
  free_if_at lt =
      let there : not (b == nil) && ltb b data_count ≡ true = ground arith in
      let in_range : leb data_count b ≡ false = ground arith in
      rw (there, in_range) (ground (arith, cleared v.bm b b m))

  pub free_if_off : (x : ℕ) → (b < data_count → b ≢ x) → test (free_if v b).bm x ≡ test v.bm x
  unfolding block_free
  free_if_off x ne = elim (Bool-cases (ltb b data_count)) [
    | inl lt ↦
        let small : b < data_count = ground arith in
        let far : b ≢ x = ne small in
        let there : not (b == nil) && ltb b data_count ≡ true = ground arith in
        let in_range : leb data_count b ≡ false = ground arith in
        rw (there, in_range) (ground (arith, cleared v.bm b x m))
    | inr out ↦ let gone : not (b == nil) && ltb b data_count ≡ false = ground arith in rw gone refl
  ]

pub free_each-Less : (k i : ℕ) (v : Fs) (f : ℕ → ℕ) → IsMap v.bm → Less v (free_each k i v f)
unfolding free_each
free_each-Less zero i v f m = Less-refl v m
free_each-Less (suc k) i v f m =
    let one : Less v (free_if v (f i)) = free_if-Less v (f i) m in
    Less-trans _ _ _ one (free_each-Less k (i + 1) (free_if v (f i)) f one.map)

pub stays_free : (v w : Fs) (x : ℕ) → Less v w → test v.bm x ≡ false → test w.bm x ≡ false
stays_free v w x l h = ground (arith, l.fewer x)

pub free_each_at :
    (k i j : ℕ) (v : Fs) (f : ℕ → ℕ)
    → IsMap v.bm
    → i ≤ j
    → j < i + k
    → f j < data_count
    → test (free_each k i v f).bm (f j) ≡ false
unfolding free_each
free_each_at zero i j v f m le lt small = absurd (omega arith)
free_each_at (suc k) i j v f m le lt small =
    let one : Less v (free_if v (f i)) = free_if-Less v (f i) m in
    elim (Bool-cases (i == j)) [
      | inl e ↦
          let same : i ≡ j = ground arith in
          stays_free (free_if v (f i)) _ (f j)
            (free_each-Less k (i + 1) (free_if v (f i)) f one.map)
            (rw (sym same) (free_if_at v (f i) m (rw same small)))
      | inr ne ↦
          free_each_at k (i + 1) j (free_if v (f i)) f one.map (ground arith) (omega arith) small
    ]

pub free_each_off :
    (k i x : ℕ) (v : Fs) (f : ℕ → ℕ)
    → IsMap v.bm
    → ((j : ℕ) → i ≤ j → j < i + k → f j < data_count → f j ≢ x)
    → test (free_each k i v f).bm x ≡ test v.bm x
unfolding free_each
free_each_off zero i x v f m ne = refl
free_each_off (suc k) i x v f m ne =
    let one : Less v (free_if v (f i)) = free_if-Less v (f i) m in
    free_each_off k (i + 1) x (free_if v (f i)) f one.map
      (λ j le lt. ne j (omega arith) (omega arith))
    ∙ free_if_off v (f i) m x (ne i (omega arith) (omega arith))
