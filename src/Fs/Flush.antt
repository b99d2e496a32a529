-- ===== src/Fs/Flush.antt =====
-- The bit map and the super block of kernel/cofeufs.cpp, written to the disk and read back.
use cofeuos.Base.{
  ℕ, zero, suc, ◌+◌, ◌-◌, ◌*◌, ◌/◌, ◌%◌, ◌^◌, ◌<◌, ◌≤◌, ◌≡◌, refl, sym, ap, ◌∙◌, inl, inr, true,
  false, List, [], ◌∷◌, ◌++◌, ltb, ◌==◌, if◌then◌else◌, arith, Bool-cases, length, get_or,
  length-append,
}
use cofeuos.Fs.{
  Fs, Bytes, byte, le32, bm_lba, sb_lba, write, no_bytes, paste, words_of, super_bytes, super_of,
  read_super, write_super, same_bytes, magic_text,
}
use cofeuos.Fs.Space.{sector_list, bm_sectors, bm_read, bm_flush, flush_from}
use cofeuos.Fs.Codec.{write_at, paste_at, le32-byte}
use cofeuos.Fs.RoundTrip.{flush_off}

get_or-append :
    (xs ys : List ℕ) (i : ℕ)
    → get_or (xs ++ ys) i 0
      ≡ (if ltb i (length xs) then get_or xs i 0 else get_or ys (i - length xs) 0)
get_or-append [] ys i = ground arith
get_or-append (x ∷ xs) ys zero = ground arith
get_or-append (x ∷ xs) ys (suc i) = ground (arith, get_or-append xs ys i)

-- Lists of one length with the same elements are the same.
same_list :
    (xs ys : List ℕ)
    → length xs ≡ length ys
    → ((i : ℕ) → i < length xs → get_or xs i 0 ≡ get_or ys i 0)
    → xs ≡ ys
same_list [] [] e same = refl
same_list [] (y ∷ ys) e same = absurd (omega arith)
same_list (x ∷ xs) [] e same = absurd (omega arith)
same_list (x ∷ xs) (y ∷ ys) e same =
    let tails : xs ≡ ys = same_list xs ys (omega arith) (λ i lt. same (suc i) (omega arith)) in
    ap (λ z. z ∷ xs) (same 0 (omega arith)) ∙ ap (λ zs. y ∷ zs) tails

length-sector_list : (n : ℕ) (f : Bytes) (i : ℕ) → length (sector_list n f i) ≡ n
unfolding sector_list
length-sector_list zero f i = refl
length-sector_list (suc n) f i = ground (arith, length-sector_list n f (i + 1))

get_or-sector_list :
    (n : ℕ) (f : Bytes) (i x : ℕ) → x < n → get_or (sector_list n f i) x 0 ≡ f (i + x)
unfolding sector_list
get_or-sector_list zero f i x lt = absurd (omega arith)
get_or-sector_list (suc n) f i zero lt = ap f (omega arith)
get_or-sector_list (suc n) f i (suc x) lt =
    let e : i + 1 + x ≡ i + suc x = omega arith in
    get_or-sector_list n f (i + 1) x (omega arith) ∙ ap f e

length-bm_sectors : (k : ℕ) (v : Fs) (i : ℕ) → length (bm_sectors k v i) ≡ k * 512
unfolding bm_sectors
length-bm_sectors zero v i = ground arith
length-bm_sectors (suc k) v i =
    length-append (sector_list 512 (v.disk (bm_lba + i)) 0) (bm_sectors k v (i + 1))
    ∙ omega (arith, length-sector_list 512 (v.disk (bm_lba + i)) 0, length-bm_sectors k v (i + 1))

get_or-bm_sectors :
    (k : ℕ) (v : Fs) (i j : ℕ)
    → j < k * 512
    → get_or (bm_sectors k v i) j 0 ≡ v.disk (bm_lba + (i + j / 512)) (j % 512)
unfolding bm_sectors
get_or-bm_sectors zero v i j lt = absurd (omega arith)
get_or-bm_sectors (suc k) v i j lt =
    let here = sector_list 512 (v.disk (bm_lba + i)) 0 in
    let long : length here ≡ 512 = length-sector_list 512 (v.disk (bm_lba + i)) 0 in
    elim (Bool-cases (ltb j 512)) [
      | inl near ↦
          let in_here : ltb j (length here) ≡ true = ground arith in
          let first : i ≡ i + j / 512 = ground arith in
          let place : 0 + j ≡ j % 512 = ground arith in
          get_or-append here (bm_sectors k v (i + 1)) j
          ∙ rw in_here (get_or-sector_list 512 (v.disk (bm_lba + i)) 0 j (ground arith))
          ∙ ap (λ l. v.disk (bm_lba + l) (0 + j)) first
          ∙ ap (v.disk (bm_lba + (i + j / 512))) place
      | inr far ↦
          let in_rest : ltb j (length here) ≡ false = ground arith in
          let later : i + 1 + (j - length here) / 512 ≡ i + j / 512 = ground arith in
          let place : (j - length here) % 512 ≡ j % 512 = ground arith in
          get_or-append here (bm_sectors k v (i + 1)) j
          ∙ rw in_rest (get_or-bm_sectors k v (i + 1) (j - length here) (ground arith))
          ∙ ap (λ l. v.disk (bm_lba + l) ((j - length here) % 512)) later
          ∙ ap (v.disk (bm_lba + (i + j / 512))) place
    ]

flush_at :
    (k i : ℕ) (v : Fs) (j x : ℕ)
    → i ≤ j
    → j < i + k
    → (flush_from k v i).disk (bm_lba + j) x ≡ get_or v.bm (j * 512 + x) 0
unfolding flush_from
flush_at zero i v j x le lt = absurd (omega arith)
flush_at (suc k) i v j x le lt =
    let v1 = write v (bm_lba + i) (λ y. get_or v.bm (i * 512 + y) 0) in
    elim (Bool-cases (i == j)) [
      | inl e ↦
          let same : j ≡ i = ground arith in
          rw same (
            flush_off k (i + 1) v1 (bm_lba + i) x (inl (omega arith))
            ∙ write_at v (bm_lba + i) (bm_lba + i) x _ refl)
      | inr ne ↦ flush_at k (i + 1) v1 j x (ground arith) (omega arith)
    ]

-- The bit map that is written to its sixteen sectors is read back.
pub bm_read-flush : (v : Fs) → length v.bm ≡ 8192 → (bm_read (bm_flush v)).bm ≡ v.bm
unfolding bm_read bm_flush
bm_read-flush v long =
    same_list _ v.bm (length-bm_sectors 16 (flush_from 16 v 0) 0 ∙ sym long) (λ j lt.
      let small : j < 8192 = omega (arith, length-bm_sectors 16 (flush_from 16 v 0) 0) in
      let back : (0 + j / 512) * 512 + j % 512 ≡ j = omega arith in
      get_or-bm_sectors 16 (flush_from 16 v 0) 0 j (omega arith)
      ∙ flush_at 16 0 v (0 + j / 512) (j % 512) (omega arith) (omega arith)
      ∙ ap (λ k. get_or v.bm k 0) back)

words-super_of :
    (f : Bytes) (i : ℕ) → i < 11 → get_or (words_of (super_of f)) i 0 ≡ le32 f (8 + 4 * i)
words-super_of f zero lt = refl
words-super_of f (suc zero) lt = refl
words-super_of f (suc (suc zero)) lt = refl
words-super_of f (suc (suc (suc zero))) lt = refl
words-super_of f (suc (suc (suc (suc zero)))) lt = refl
words-super_of f (suc (suc (suc (suc (suc zero))))) lt = refl
words-super_of f (suc (suc (suc (suc (suc (suc zero)))))) lt = refl
words-super_of f (suc (suc (suc (suc (suc (suc (suc zero))))))) lt = refl
words-super_of f (suc (suc (suc (suc (suc (suc (suc (suc zero)))))))) lt = refl
words-super_of f (suc (suc (suc (suc (suc (suc (suc (suc (suc zero))))))))) lt = refl
words-super_of f (suc (suc (suc (suc (suc (suc (suc (suc (suc (suc zero)))))))))) lt = refl
words-super_of f (suc (suc (suc (suc (suc (suc (suc (suc (suc (suc (suc i))))))))))) lt =
    absurd (omega arith)

super_sector : (v : Fs) (x : ℕ) → x < 64 → (write_super v).disk sb_lba x ≡ super_bytes v.super x
unfolding write_super
super_sector v x lt =
    write_at v sb_lba sb_lba x (paste no_bytes 0 64 (super_bytes v.super)) refl
    ∙ paste_at no_bytes (super_bytes v.super) 0 64 x x (omega arith) lt

same_bytes-cong :
    (f g : Bytes) (bs : List ℕ) (i : ℕ)
    → ((x : ℕ) → x < i + length bs → f x ≡ g x)
    → same_bytes f i bs ≡ same_bytes g i bs
unfolding same_bytes
same_bytes-cong f g [] i same = refl
same_bytes-cong f g (b ∷ bs) i same =
    let here : f i ≡ g i = same i (omega arith) in
    let rest : same_bytes f (i + 1) bs ≡ same_bytes g (i + 1) bs =
      same_bytes-cong f g bs (i + 1) (λ x lt. same x (omega arith)) in
    ground arith

-- The super block that is written is read back field by field, if the fields fit four bytes; it
-- is accepted exactly if its mark is right.
pub read_super-write :
    (v : Fs)
    → ((i : ℕ) → i < 11 → get_or (words_of v.super) i 0 < 2 ^ 32)
    → let r = read_super (write_super v) in
      ((i : ℕ) → i < 11 → get_or (words_of r.0.super) i 0 ≡ get_or (words_of v.super) i 0)
      × ((x : ℕ) → x < 8 → r.0.super.magic x ≡ v.super.magic x)
      × (r.1 ≡ same_bytes v.super.magic 0 magic_text)
unfolding read_super
read_super-write v fits = (
  λ i lt. words-super_of ((write_super v).disk sb_lba) i lt ∙ word i lt,
  λ x lt. mark x lt,
  same_bytes-cong _ _ magic_text 0 (λ x lt. mark x lt),
)
  where
    sec : Bytes
    sec = (write_super v).disk sb_lba

    mark : (x : ℕ) → x < 8 → sec x ≡ v.super.magic x
    mark x lt = super_sector v x (omega arith) ∙ ground arith

    at : (i k : ℕ) → i < 11 → k < 4 → sec (8 + 4 * i + k) ≡ byte k (get_or (words_of v.super) i 0)
    at i k lt small =
        let q : (8 + 4 * i + k - 8) / 4 ≡ i = omega arith in
        let r : (8 + 4 * i + k - 8) % 4 ≡ k = omega arith in
        let out : ltb (8 + 4 * i + k) 8 ≡ false = ground arith in
        super_sector v (8 + 4 * i + k) (omega arith) ∙ rw (out, q, r) refl

    word : (i : ℕ) → i < 11 → le32 sec (8 + 4 * i) ≡ get_or (words_of v.super) i 0
    word i lt =
        let e : 8 + 4 * i + 0 ≡ 8 + 4 * i = omega arith in
        le32-byte sec (8 + 4 * i) (get_or (words_of v.super) i 0)
          (ap sec (sym e) ∙ at i 0 lt (omega arith)) (at i 1 lt (omega arith))
          (at i 2 lt (omega arith)) (at i 3 lt (omega arith)) (fits i lt)
