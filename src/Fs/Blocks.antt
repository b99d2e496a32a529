-- ===== src/Fs/Blocks.antt =====
-- The allocation of data blocks in kernel/cofeufs.cpp: which blocks are taken, and by whom.
use cofeuos.Base.{
  ℕ, zero, suc, ◌+◌, ◌<◌, ◌≤◌, ◌≡◌, ◌≢◌, refl, sym, ap, ◌∙◌, ◌⊎◌, Bool, true, false, ◌||◌, List,
  Option, none, some, ◌==◌, if◌then◌else◌, length, arith, Bool-cases, ne→==, inl, inr,
}
use cofeuos.Bitmap.{test, mark, clear, AllBytes}
use cofeuos.Bitmap.Laws.{
  mark-AllBytes, length-mark, test-mark, clear-AllBytes, length-clear, test-clear,
}
use cofeuos.Fs.{Fs, data_count}
use cofeuos.Fs.Space.{block_scan, block_alloc, take_block}

-- The bit map is as long as its sectors, and its entries are bytes.
pub record IsMap (bm : List ℕ) : Type 0 where
  pub long : length bm ≡ 8192
  pub bytes : AllBytes bm

pub mark-IsMap : (bm : List ℕ) (b : ℕ) → IsMap bm → IsMap (mark bm b)
mark-IsMap bm b m = record { long = length-mark bm b ∙ m.long; bytes = mark-AllBytes bm b m.bytes }

pub clear-IsMap : (bm : List ℕ) (b : ℕ) → IsMap bm → IsMap (clear bm b)
clear-IsMap bm b m = record {
  long = length-clear bm b ∙ m.long;
  bytes = clear-AllBytes bm b m.bytes;
}

pub marked :
    (bm : List ℕ) (b x : ℕ)
    → IsMap bm
    → b < data_count
    → test (mark bm b) x ≡ (if b == x then true else test bm x)
marked bm b x m lt = test-mark bm b x m.bytes (omega (arith, m.long))

pub cleared :
    (bm : List ℕ) (b x : ℕ)
    → IsMap bm
    → b < data_count
    → test (clear bm b) x ≡ (if b == x then false else test bm x)
cleared bm b x m lt = test-clear bm b x m.bytes (omega (arith, m.long))

-- What a scan of `k` blocks from `i` on gives: the first that is free, or none if all are taken.
abbrev pub Scanned : List ℕ → ℕ → ℕ → Option ℕ → Type 0
Scanned bm i k none = (j : ℕ) → i ≤ j → j < i + k → test bm j ≡ true
Scanned bm i k (some b) =
    (i ≤ b) × (b < i + k) × (test bm b ≡ false) × ((j : ℕ) → i ≤ j → j < b → test bm j ≡ true)

scanned_none :
    (bm : List ℕ) (i k : ℕ)
    → test bm i ≡ true
    → ((j : ℕ) → i + 1 ≤ j → j < i + 1 + k → test bm j ≡ true)
    → (j : ℕ) → i ≤ j
    → j < i + suc k
    → test bm j ≡ true
scanned_none bm i k here rest j le lt = elim (Bool-cases (i == j)) [
  | inl e ↦ ground arith
  | inr ne ↦ rest j (ground arith) (omega arith)
]

step_scan :
    (bm : List ℕ) (i k : ℕ) (o : Option ℕ)
    → test bm i ≡ true
    → Scanned bm (i + 1) k o
    → Scanned bm i (suc k) o
step_scan bm i k none here rest = scanned_none bm i k here rest
step_scan bm i k (some b) here (le, lt, free, first) =
    (omega arith, omega arith, free, scanned_below)
  where
    scanned_below : (j : ℕ) → i ≤ j → j < b → test bm j ≡ true
    scanned_below j lo hi = elim (Bool-cases (i == j)) [
      | inl e ↦ ground arith
      | inr ne ↦ first j (ground arith) hi
    ]

block_scan_lem : (bm : List ℕ) (k i : ℕ) → Scanned bm i k (block_scan bm k i)
unfolding block_scan
block_scan_lem bm zero i = λ j le lt. absurd (omega arith)
block_scan_lem bm (suc k) i = elim (Bool-cases (test bm i)) [
  | inl taken ↦
      rw taken (step_scan bm i k (block_scan bm k (i + 1)) taken (block_scan_lem bm k (i + 1)))
  | inr free ↦ rw free (omega arith, omega arith, free, λ j le lt. absurd (omega arith))
]

-- What an allocation did.
abbrev pub Allocated : Fs → Fs × Option ℕ → Type 0
Allocated v (v', none) = (v' ≡ v) × ((j : ℕ) → j < data_count → test v.bm j ≡ true)
Allocated v (v', some b) =
    (b < data_count)
    × (test v.bm b ≡ false)
    × ((j : ℕ) → j < b → test v.bm j ≡ true)
    × (v' ≡ record v { bm = mark v.bm b })

take_block_lem :
    (v : Fs) (o : Option ℕ) → Scanned v.bm 0 data_count o → Allocated v (take_block v o)
take_block_lem v none s = (refl, λ j lt. s j (omega arith) (omega arith))
take_block_lem v (some b) (le, lt, free, first) =
    (omega arith, free, λ j hi. first j (omega arith) hi, refl)

-- An allocation takes the first block that is free, and marks it; it gives none, and changes
-- nothing, only if every data block is taken.
pub block_alloc_lem : (v : Fs) → Allocated v (block_alloc v)
unfolding block_alloc
block_alloc_lem v = take_block_lem v _ (block_scan_lem v.bm data_count 0)

-- The blocks `own` has at the numbers `live`, among those that were taken before, `old`.
pub record Owned (old bm : List ℕ) (live : ℕ → Bool) (own : ℕ → ℕ) : Type 0 where
  pub map : IsMap bm
  pub inside : (i : ℕ) → live i ≡ true → own i < data_count
  pub taken : (i : ℕ) → live i ≡ true → test bm (own i) ≡ true
  pub apart : (i j : ℕ) → live i ≡ true → live j ≡ true → own i ≡ own j → i ≡ j
  pub kept : (x : ℕ) → test old x ≡ true → test bm x ≡ true
  pub fresh : (i x : ℕ) → live i ≡ true → test old x ≡ true → own i ≢ x
  pub only :
      (x : ℕ) → test bm x ≡ true → (test old x ≡ true) ⊎ ((i : ℕ) × (live i ≡ true) × (own i ≡ x))

abbrev pub with_at : (ℕ → ℕ) → ℕ → ℕ → ℕ → ℕ
with_at own k b i = if i == k then b else own i

abbrev pub and_at : (ℕ → Bool) → ℕ → ℕ → Bool
and_at live k i = i == k || live i

module _ (old bm : List ℕ) (live : ℕ → Bool) (own : ℕ → ℕ) (k b : ℕ) (o : Owned old bm live own)
    (lt : b < data_count) (free : test bm b ≡ false) where
  now : (x : ℕ) → test (mark bm b) x ≡ (if b == x then true else test bm x)
  now x = marked bm b x o.map lt

  differ : (x : ℕ) → test bm x ≡ true → b ≢ x
  differ x h e = ground (arith, ap (test bm) e)

  still : (x : ℕ) → test bm x ≡ true → test (mark bm b) x ≡ true
  still x h = rw (now x, ne→== b x (differ x h)) h

  itself : test (mark bm b) b ≡ true
  itself = rw (now b) (ground arith)

  apart_add :
      (i j : ℕ)
      → and_at live k i ≡ true
      → and_at live k j ≡ true
      → with_at own k b i ≡ with_at own k b j
      → i ≡ j
  apart_add i j h g e = elim (Bool-cases (i == k)) [
    | inl x ↦ elim (Bool-cases (j == k)) [
      | inl y ↦ ground arith
      | inr y ↦ absurd (differ (own j) (o.taken j (ground arith)) (ground arith))
    ]
    | inr x ↦ elim (Bool-cases (j == k)) [
      | inl y ↦ absurd (differ (own i) (o.taken i (ground arith)) (ground arith))
      | inr y ↦ o.apart i j (ground arith) (ground arith) (ground arith)
    ]
  ]

  only_add :
      live k ≡ false
      → (x : ℕ) → test (mark bm b) x ≡ true
      → (test old x ≡ true) ⊎ ((i : ℕ) × (and_at live k i ≡ true) × (with_at own k b i ≡ x))
  only_add dead x h = elim (Bool-cases (b == x)) [
    | inl e ↦ inr (k, ground arith, ground arith)
    | inr n ↦ elim (o.only x (ground (arith, now x))) [
      | inl before ↦ inl before
      | inr (i, l, e) ↦ inr (i, ground arith, ground arith)
    ]
  ]

  -- One more block that was free.
  pub Owned-add : live k ≡ false → Owned old (mark bm b) (and_at live k) (with_at own k b)
  Owned-add dead = record {
    map = mark-IsMap bm b o.map;
    inside = λ i h. ground (arith, o.inside i);
    taken = λ i h. elim (Bool-cases (i == k)) [
      | inl e ↦ rw e itself
      | inr n ↦ rw n (still (own i) (o.taken i (ground arith)))
    ];
    apart = apart_add;
    kept = λ x h. still x (o.kept x h);
    fresh = λ i x h g. elim (Bool-cases (i == k)) [
      | inl e ↦ rw e (differ x (o.kept x g))
      | inr n ↦ rw n (o.fresh i x (ground arith) g)
    ];
    only = only_add dead;
  }

-- The same numbers, told otherwise.
pub Owned-same :
    (old bm : List ℕ) (live live' : ℕ → Bool) (own : ℕ → ℕ)
    → Owned old bm live own
    → ((i : ℕ) → live' i ≡ live i)
    → Owned old bm live' own
Owned-same old bm live live' own o same = record {
  map = o.map;
  inside = λ i h. o.inside i (sym (same i) ∙ h);
  taken = λ i h. o.taken i (sym (same i) ∙ h);
  apart = λ i j h g. o.apart i j (sym (same i) ∙ h) (sym (same j) ∙ g);
  kept = o.kept;
  fresh = λ i x h. o.fresh i x (sym (same i) ∙ h);
  only =
      λ x h. elim (o.only x h) [ inl before ↦ inl before | inr (i, l, e) ↦ inr (i, same i ∙ l, e) ];
}
