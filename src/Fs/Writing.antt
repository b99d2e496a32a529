-- ===== src/Fs/Writing.antt =====
-- `write_file` of kernel/cofeufs.cpp: a whole file is on the disk afterwards, or nothing of it.
use cofeuos.Base.{
  ℕ, ◌+◌, ◌-◌, ◌*◌, ◌/◌, ◌%◌, ◌^◌, ◌<◌, ◌≤◌, ◌≡◌, ◌≢◌, refl, ap, ◌∙◌, inl, inr, Bool, true, false,
  ltb, if◌then◌else◌, arith, ne→==, Bool-cases, subst,
}
use cofeuos.Bitmap.{test}
use cofeuos.Fs.{Fs, Inode, Bytes, nil, data_lba, data_count, ino_count, max_file, inode_read}
use cofeuos.Fs.Space.{inode_free_blocks, inode_reset}
use cofeuos.Fs.Files.{store_all, store_mapped, finish_write, write_inode, write_file_abort}
use cofeuos.Fs.Codec.{Alike, Fits, inode_of-Alike}
use cofeuos.Fs.Blocks.{IsMap}
use cofeuos.Fs.Layout.{Layout}
use cofeuos.Fs.Growth.{IsFull}
use cofeuos.Fs.Contents.{AllMapped, map_all_lem, store_all_lem}
use cofeuos.Fs.Slots.{Emptied, inode_free_blocks-Emptied}
use cofeuos.Fs.Release.{Less}
use cofeuos.Fs.Tables.{inode_free_blocks-Less}
use cofeuos.Fs.Undo.{inode_free_blocks-Layout}
use cofeuos.Fs.RoundTrip.{
  ReadsAs, Alike-trans, saved, saved_bm, saved_data, saved_inode, saved_self, reads_saved,
  Fits-Layout,
}

-- The other inodes, and the blocks that were taken in `f`, are as they were in `v`.
pub record Apart (v f w : Fs) (ino : ℕ) : Type 0 where
  pub inodes : (n : ℕ) → n < ino_count → n ≢ ino → Alike (inode_read w n) (inode_read v n)
  pub blocks : (b x : ℕ) → test f.bm b ≡ true → w.disk (data_lba + b) x ≡ v.disk (data_lba + b) x

-- At most `n` blocks are free: each of them has one of the numbers below `n`.
abbrev pub FewFree : Fs → ℕ → Type 0
FewFree f n =
    (own : ℕ → ℕ) × ((x : ℕ)
      → x < data_count
      → test f.bm x ≡ false
      → (i : ℕ) × (i < n) × (own i ≡ x))

few_free :
    (f w : Fs) (d0 d : Inode) (m n tabs : ℕ) (own : ℕ → ℕ)
    → Layout f w d0 d m tabs own
    → m ≤ n
    → IsFull w
    → FewFree f (n + 2)
few_free f w d0 d m n tabs own l le full = (mixed, number)
  where
    mixed : ℕ → ℕ
    mixed i = if ltb i n then own i else own (276 + (i - n))

    number : (x : ℕ) → x < data_count → test f.bm x ≡ false → (i : ℕ) × (i < n + 2) × (mixed i ≡ x)
    number x lt free = elim (l.owned.only x (full x lt)) [
      | inl old ↦ absurd (ground arith)
      | inr (i, h, e) ↦ elim (Bool-cases (ltb i m)) [
        | inl data_block ↦ (i, ground arith, ground arith)
        | inr table_block ↦
            let few : tabs ≤ 2 = l.few in
            let back : 276 + (n + (i - 276) - n) ≡ i = ground arith in
            (n + (i - 276), ground arith, ground arith)
      ]
    ]

-- A write that went well, and one that found the disk full.
abbrev pub Outcome : Fs → Fs → ℕ → Bytes → ℕ → Fs × Bool → Type 0
Outcome v f ino src len (w, true) = ReadsAs w ino src len × Apart v f w ino
Outcome v f ino src len (w, false) =
    FewFree f ((len + 511) / 512 + 1)
    × ((inode_read w ino).size ≡ 0)
    × ((x : ℕ) → test w.bm x ≡ test f.bm x)
    × Apart v f w ino

fresh-Layout :
    (f : Fs) (d : Inode) → IsMap f.bm → ((i : ℕ) → d.blocks i ≡ nil) → Layout f f d d 0 0 (λ i. 0)
fresh-Layout f d m empty = record {
  owned = record {
    map = m;
    inside = λ i h. absurd (ground arith);
    taken = λ i h. absurd (ground arith);
    apart = λ i j h. absurd (ground arith);
    kept = λ x h. h;
    fresh = λ i x h. absurd (ground arith);
    only = λ x h. inl h;
  };
  few = omega arith;
  room = omega arith;
  direct = λ i lt. ground (arith, empty i);
  table = λ t lt. ground (arith, empty (20 + t));
  pointer = λ t j ht. absurd (omega arith);
  low = λ l x h. refl;
  others = λ b x h. refl;
  same = refl;
}

-- The inode table is below the data, so that its inodes stay while blocks are mapped and stored.
inodes_stay :
    (v w : Fs) (n : ℕ)
    → ((l x : ℕ) → l < data_lba → w.disk l x ≡ v.disk l x)
    → n < ino_count
    → Alike (inode_read w n) (inode_read v n)
unfolding inode_read
inodes_stay v w n low lt =
    inode_of-Alike _ _ (λ x h. low (2066 + n / 4) (n % 4 * 128 + x) (omega arith))

Fits-Emptied : (d e : Inode) → Fits d → Emptied d e → Fits (record e { size = 0 })
Fits-Emptied d e fits em = record {
  type = rw em.same fits.type;
  rsv = rw em.same fits.rsv;
  size = omega arith;
  blocks = λ i lt. elim (em.slot i) [
    | inl gone ↦ rw gone (omega arith)
    | inr kept ↦ rw kept (fits.blocks i lt)
  ];
}

module _ (v f w : Fs) (d0 d : Inode) (n tabs : ℕ) (own : ℕ → ℕ) (ino : ℕ)
    (l : Layout f w d0 d n tabs own) (disk : f.disk ≡ v.disk) (lt : ino < ino_count) where
  Apart-saved : (e : Inode) (u : Fs) → u.disk ≡ w.disk → Fits e → Apart v f (saved u ino e) ino
  Apart-saved e u same fits = record {
    inodes = λ k small ne. Alike-trans _ _ _ (other k ne) (
        inodes_stay v u k (λ b x h. ap (λ g. g b x) same ∙ l.low b x h ∙ ap (λ g. g b x) disk)
          small);
    blocks = λ b x h.
        saved_data u ino (data_lba + b) x e lt (omega arith)
        ∙ ap (λ g. g (data_lba + b) x) same
        ∙ l.others b x h
        ∙ ap (λ g. g (data_lba + b) x) disk;
  }
    where
      other : (k : ℕ) → k ≢ ino → Alike (inode_read (saved u ino e) k) (inode_read u k)
      other k ne =
          subst (λ b. Alike (inode_read (saved u ino e) k) (if b then e else inode_read u k))
            (ne→== k ino ne) (saved_inode u ino k e fits)

  -- A write that is given up leaves an empty file and the bit map as it was.
  abort_lem :
      (src : Bytes) (len : ℕ)
      → n < (len + 511) / 512
      → len ≤ max_file
      → IsFull w
      → Fits d
      → Outcome v f ino src len (write_file_abort w ino d)
  unfolding write_file_abort
  abort_lem src len le small full fits =
      let r = inode_free_blocks w d in
      let (map, same, bits) = inode_free_blocks-Layout f w d0 d n tabs own l (omega arith) in
      let e : Inode = record r.1 { size = 0 } in
      let fits0 : Fits e = Fits-Emptied d r.1 fits (inode_free_blocks-Emptied w d) in
      (
        subst (FewFree f) (omega arith)
            (few_free f w d0 d n ((len + 511) / 512 - 1) tabs own l (omega arith) full),
        (saved_self r.0 ino e fits0).size,
        λ x. ap (λ b. test b x) (saved_bm r.0 ino e) ∙ bits x,
        Apart-saved e r.0 same fits0,
      )

finish_lem :
    (v f w : Fs) (d0 d : Inode) (n tabs : ℕ) (own : ℕ → ℕ) (ino len : ℕ) (src : Bytes)
    → Layout f w d0 d n tabs own
    → f.disk ≡ v.disk
    → ino < ino_count
    → n ≡ (len + 511) / 512
    → d.size ≡ len
    → len ≤ max_file
    → Fits d
    → Outcome v f ino src len (finish_write ino d (store_all n 0 w d src n len))
finish_lem v f w d0 d n tabs own ino len src l disk lt en es small fits =
    let (u, run, lu, st) =
      store_all_lem f d0 d n tabs own (omega arith) n 0 w src len l (λ j x h. absurd (omega arith))
        (omega arith) in
    rw run (
      reads_saved f u d0 d n tabs own src len ino lu st fits en es small lt,
      Apart-saved v f u d0 d n tabs own ino lu disk lt d u refl fits,
    )

store_mapped_lem :
    (v f : Fs) (d0 : Inode) (ino len : ℕ) (src : Bytes)
    → f.disk ≡ v.disk
    → ino < ino_count
    → len ≤ max_file
    → d0.size ≡ len
    → d0.type < 2 ^ 16
    → d0.rsv < 2 ^ 16
    → (r : Fs × Inode × Bool) → AllMapped f d0 ((len + 511) / 512) r
    → Outcome v f ino src len (store_mapped ino src ((len + 511) / 512) len r)
store_mapped_lem v f d0 ino len src disk lt small es ht hr (w, d, true) (tabs, own, l) =
    let fits : Fits d = Fits-Layout f w d0 d _ tabs own l ht hr (omega arith) in
    let size : d.size ≡ len = ap (λ e. e.size) l.same ∙ es in
    finish_lem v f w d0 d _ tabs own ino len src l disk lt refl size small fits
store_mapped_lem v f d0 ino len src disk lt small es ht hr (w, d, false)
      ((m, le, (tabs, own, l)), full) =
    let fits : Fits d = Fits-Layout f w d0 d m tabs own l ht hr (omega arith) in
    abort_lem v f w d0 d m tabs own ino l disk lt src len le small full fits

-- `write_file` on the inode `d` of number `ino`, which is in the table and whose type fits two
-- bytes, with a bit map of whole sectors: a file of at most 141312 bytes is read back byte for
-- byte, at any length that the reader asks for; or, only if fewer blocks are free than its bytes
-- and two tables take, the inode is left empty, with the bit map as it was before the file's
-- blocks were taken. The other inodes, and blocks that were in use by others, stay.
pub write_inode_lem :
    (v : Fs) (ino : ℕ) (d : Inode) (src : Bytes) (len : ℕ)
    → IsMap v.bm
    → ino < ino_count
    → d.type < 2 ^ 16
    → d.rsv < 2 ^ 16
    → len ≤ max_file
    → Outcome v (inode_free_blocks v d).0 ino src len (write_inode v ino d src len)
unfolding write_inode
write_inode_lem v ino d src len m lt ht hr small =
    let r = inode_free_blocks v d in
    let d0 : Inode = record (inode_reset r.1) { size = len } in
    let less : Less v r.0 = inode_free_blocks-Less v d m in
    let em : Emptied d r.1 = inode_free_blocks-Emptied v d in
    store_mapped_lem v r.0 d0 ino len src less.disk lt small refl (rw em.same ht) (rw em.same hr) _
      (map_all_lem r.0 d0 ((len + 511) / 512) 0 ((len + 511) / 512) r.0 d0
        (0, (λ i. 0), fresh-Layout r.0 d0 less.map (λ i. refl)) (omega arith) (omega arith))
