-- ===== src/Fs/Slots.antt =====
-- The slots of an inode whose blocks kernel/cofeufs.cpp gives back.
use cofeuos.Base.{
  ℕ, zero, suc, ◌+◌, ◌≤◌, ◌≡◌, ◌≢◌, refl, ap, ◌∙◌, ◌⊎◌, inl, inr, Bool, true, false, not, ◌&&◌, ltb,
  ◌==◌, if◌then◌else◌, arith, Bool-cases,
}
use cofeuos.Fs.{Fs, Inode, nil, data_count}
use cofeuos.Fs.Space.{inode_free_blocks, free_direct, free_tables, set_block}
use cofeuos.Fs.Layout.{with_blocks}
use cofeuos.Fs.Release.{free_if}

-- A slot that is emptied if it has a number.
abbrev pub empty_if : Inode → ℕ → Inode
empty_if d i =
    if not (d.blocks i == nil) && ltb (d.blocks i) data_count then set_block d i nil else d

pub empty_if-off : (d : Inode) (i j : ℕ) → i ≢ j → (empty_if d i).blocks j ≡ d.blocks j
empty_if-off d i j ne = ground arith

-- The inode afterwards: each slot is as before, or empty, and nothing else has changed.
pub record Emptied (d e : Inode) : Type 0 where
  pub same : e ≡ with_blocks d e.blocks
  pub slot : (j : ℕ) → (e.blocks j ≡ nil) ⊎ (e.blocks j ≡ d.blocks j)

Emptied-refl : (d : Inode) → Emptied d d
Emptied-refl d = record { same = refl; slot = λ j. inr refl }

Emptied-trans : (a b c : Inode) → Emptied a b → Emptied b c → Emptied a c
Emptied-trans a b c p q = record {
  same = q.same ∙ ap (λ e. with_blocks e c.blocks) p.same;
  slot = λ j. elim (q.slot j) [
    | inl e ↦ inl e
    | inr e ↦ elim (p.slot j) [ inl g ↦ inl (e ∙ g) | inr g ↦ inr (e ∙ g) ]
  ];
}

Emptied-one : (d : Inode) (i : ℕ) (b : Bool) → Emptied d (if b then set_block d i nil else d)
Emptied-one d i true = record {
  same = refl;
  slot = λ j. elim (Bool-cases (i == j)) [ inl e ↦ inl (rw e refl) | inr e ↦ inr (rw e refl) ];
}
Emptied-one d i false = Emptied-refl d

free_direct-Emptied : (k i : ℕ) (v : Fs) (d : Inode) → Emptied d (free_direct k i v d).1
unfolding free_direct
free_direct-Emptied zero i v d = Emptied-refl d
free_direct-Emptied (suc k) i v d =
    Emptied-trans d (empty_if d i) _ (Emptied-one d i _)
      (free_direct-Emptied k (i + 1) (free_if v (d.blocks i)) (empty_if d i))

pub free_direct-later :
    (k i j : ℕ) (v : Fs) (d : Inode) → i + k ≤ j → (free_direct k i v d).1.blocks j ≡ d.blocks j
unfolding free_direct
free_direct-later zero i j v d le = refl
free_direct-later (suc k) i j v d le =
    free_direct-later k (i + 1) j (free_if v (d.blocks i)) (empty_if d i) (omega arith)
    ∙ empty_if-off d i j (omega arith)

free_tables-Emptied : (k t : ℕ) (v : Fs) (d : Inode) → Emptied d (free_tables k t v d).1
unfolding free_tables
free_tables-Emptied zero t v d = Emptied-refl d
free_tables-Emptied (suc k) t v d =
    Emptied-trans d (empty_if d (20 + t)) _ (Emptied-one d (20 + t) _)
      (free_tables-Emptied k (t + 1) _ (empty_if d (20 + t)))

pub inode_free_blocks-Emptied : (v : Fs) (d : Inode) → Emptied d (inode_free_blocks v d).1
unfolding inode_free_blocks
inode_free_blocks-Emptied v d =
    Emptied-trans d (free_direct 20 0 v d).1 _ (free_direct-Emptied 20 0 v d)
      (free_tables-Emptied 2 0 (free_direct 20 0 v d).0 (free_direct 20 0 v d).1)
