-- ===== src/Pmm/Runs.antt =====
-- `pmm_alloc_range` of kernel/pmm.cpp.
use cofeuos.Base.{
  ℕ, zero, suc, ◌+◌, ◌-◌, ◌*◌, ◌^◌, ◌≤◌, ◌<◌, ◌≡◌, refl, sym, ap, ◌∙◌, subst, ◌⊎◌, inl, inr, ◌≢◌,
  true, false, not, ◌&&◌, List, Option, none, some, arith, ltb, leb, ◌==◌, add64, sub64, mul64,
  Bool-cases, ne→==, ltb→lt, leb→le, leb→lt,
}
use cofeuos.Bitmap.{test}
use cofeuos.Pmm.{Pmm, scan_range, alloc_range, free_range, range_mark, bit_of}
use cofeuos.Pmm.Inv.{IsValid, Changes, AllFrames, frame_addr, taken}
use cofeuos.Pmm.Frame.{range_mark_eq, free_range_lem}
use cofeuos.Pmm.Alloc.{Grants, fill-Grants}

-- No `n` frames in a row, from frame `s` on, are free.
abbrev NoRun : List ℕ → ℕ → ℕ → Type 0
NoRun bits s n = ((j : ℕ) → s ≤ j → j < s + n → test bits j ≡ false) → ⊥

abbrev FoundRun : List ℕ → ℕ → ℕ → Option ℕ → Type 0
FoundRun bits nframes n none = (s : ℕ) → s + n ≤ nframes → NoRun bits s n
FoundRun bits nframes n (some r) =
    (r + n ≤ nframes)
    × ((j : ℕ) → r ≤ j → j < r + n → test bits j ≡ false)
    × ((s : ℕ) → s < r → NoRun bits s n)

-- At frame `i` the last `run` frames are free, and no long enough run begins before them.
record Running (bits : List ℕ) (nframes n i run : ℕ) : Type 0 where
  within : run ≤ i
  free : (j : ℕ) → i ≤ j + run → j < i → test bits j ≡ false
  stopped : nframes < i → run ≡ 0
  none_before : (s : ℕ) → s + run < i → s + n ≤ nframes → NoRun bits s n

module _ (bits : List ℕ) (nframes n : ℕ) (small : nframes < 2 ^ 35) (pos : 0 < n) where
  longer :
      (i run : ℕ)
      → i < nframes
      → test bits (bit_of i) ≡ false
      → Running bits nframes n i run
      → Running bits nframes n (i + 1) (run + 1)
  longer i run lt e w =
      let same : bit_of i ≡ i = omega arith in
      let here : test bits i ≡ false = subst (λ k. test bits k ≡ false) same e in
      record {
        within = omega (arith, w.within);
        free = λ j lo hi. elim (Bool-cases (i == j)) [
          | inl eq ↦ let e' : i ≡ j = ground arith in subst (λ k. test bits k ≡ false) e' here
          | inr ne ↦ w.free j (omega arith) (ground arith)
        ];
        stopped = λ past. absurd (omega arith);
        none_before = λ s lt' fits. w.none_before s (omega arith) fits;
      }

  -- A run that is too short and ends at frame `i` hides no long one.
  afresh :
      (i run : ℕ)
      → run < n
      → (i < nframes → test bits (bit_of i) ≡ true)
      → Running bits nframes n i run
      → Running bits nframes n (i + 1) 0
  afresh i run short stop w = record {
    within = omega arith;
    free = λ j lo hi. absurd (omega arith);
    stopped = λ past. refl;
    none_before = λ s lt fits free. elim (Bool-cases (ltb (s + run) i)) [
      | inl before ↦ w.none_before s (ltb→lt _ _ before) fits free
      | inr from ↦
          let le : i ≤ s + run = ground arith in
          let in_range : i < nframes = omega arith in
          let same : bit_of i ≡ i = omega arith in
          let set : test bits i ≡ true = subst (λ k. test bits k ≡ true) same (stop in_range) in
          let clear : test bits i ≡ false = free i (omega arith) (omega arith) in cc
    ];
  }

  ended :
      (i run : ℕ)
      → n ≤ run
      → i ≤ nframes
      → Running bits nframes n i run
      → FoundRun bits nframes n (some (sub64 i run))
  ended i run long le w =
      let start : sub64 i run ≡ i - run = omega (arith, w.within) in
      rw start (
        omega (arith, w.within),
        λ j lo hi. w.free j (omega arith) (omega (arith, w.within)),
        λ s lt. w.none_before s (omega (arith, w.within)) (omega (arith, w.within)),
      )

  scan_range-FoundRun :
      (k i run : ℕ)
      → i + k ≡ nframes + 1
      → Running bits nframes n i run
      → FoundRun bits nframes n (scan_range bits nframes n k i run)
  unfolding scan_range
  scan_range-FoundRun zero i run e w = λ s fits free. elim (Bool-cases (ltb (s + run) i)) [
    | inl before ↦ w.none_before s (ltb→lt _ _ before) fits free
    | inr from ↦ let none_left : run ≡ 0 = w.stopped (omega arith) in absurd (ground arith)
  ]
  scan_range-FoundRun (suc k) i run e w =
      elim (Bool-cases (ltb i nframes && not (test bits (bit_of i)))) [
        | inl go_on ↦
            let a : (i < nframes) × (test bits (bit_of i) ≡ false) = ground arith in
            rw go_on
              (scan_range-FoundRun k (i + 1) (run + 1) (omega arith) (longer i run a.0 a.1 w))
        | inr stop ↦ elim (Bool-cases (leb n run)) [
          | inl long ↦ rw (stop, long) (ended i run (leb→le _ _ long) (omega arith) w)
          | inr short ↦
              rw (stop, short)
                (scan_range-FoundRun k (i + 1) 0 (omega arith)
                  (afresh i run (leb→lt _ _ short) (λ lt. ground arith) w))
        ]
      ]

abbrev pub RangeGiven : Pmm → ℕ → Pmm × ℕ → Type 0
RangeGiven p n r =
    ((r ≡ (p, 0)) × ((s : ℕ) → s + n ≤ p.nframes → ¬ AllFrames false p s n))
    ⊎ ((s : ℕ) × Grants p s n r × ((t : ℕ) → t < s → ¬ AllFrames false p t n))

-- `pmm_alloc_range` of at least one frame on a valid manager hands out the first run of `n` free
-- frames, or returns 0 and changes nothing where there is no such run.
pub alloc_range_lem : {p : Pmm} (n : ℕ) → IsValid p → 0 < n → RangeGiven p n (alloc_range p n)
unfolding alloc_range
alloc_range_lem {p} n v pos = rw (ne→== n 0 (omega arith)) (
    go (scan_range p.bits p.nframes n (p.nframes + 1) 0 0) (
      scan_range-FoundRun p.bits p.nframes n (omega arith) pos (p.nframes + 1) 0 0 (omega arith)
        (record {
          within = omega arith;
          free = λ j lo hi. absurd (omega arith);
          stopped = λ past. refl;
          none_before = λ s lt fits. absurd (omega arith);
        })))
  where
    granted : ℕ → Pmm × ℕ
    granted s = (
      record p {
        bits = range_mark p.base p.bits (add64 p.base (mul64 s 4096)) n true;
        free_frames = sub64 p.free_frames n;
      },
      add64 p.base (mul64 s 4096),
    )

    given : (s : ℕ) → s + n ≤ p.nframes → AllFrames false p s n → Grants p s n (granted s)
    given s fits free =
        let addr : add64 p.base (mul64 s 4096) ≡ frame_addr p s = omega arith in
        rw (addr, range_mark_eq v s n fits true) (fill-Grants v s n fits pos free)

    go :
        (o : Option ℕ)
        → FoundRun p.bits p.nframes n o
        → RangeGiven p n (elim o [ none ↦ (p, 0) | some s ↦ granted s ])
    go none f = inl (refl, f)
    go (some s) f = inr (s, given s f.0 f.1, f.2)

abbrev Restored : Pmm → ℕ → Pmm × ℕ → Type 0
Restored p n (q, a) =
    ((j : ℕ) → taken (free_range q a n) j ≡ taken p j)
    × ((free_range q a n).free_frames ≡ p.free_frames)
    × IsValid (free_range q a n)

Grants-Restored :
    {p : Pmm} (n s : ℕ) (q : Pmm) (a : ℕ)
    → IsValid p
    → 0 < n
    → Grants p s n (q, a)
    → Restored p n (q, a)
Grants-Restored {p} n s q a v pos g = rw address (
  λ j. ground (arith, back.0.frames j, g.changes.frames j, g.were_free j),
  omega (arith, back.1, g.counted),
  back.2,
)
  where
    address : a ≡ frame_addr q s
    address = g.address ∙ ap (λ b. b + s * 4096) (sym g.changes.same_base)

    in_use : AllFrames true q s n
    in_use j lo hi = ground (arith, g.changes.frames j)

    back :
        Changes q (free_range q (frame_addr q s) n) s n false
        × ((free_range q (frame_addr q s) n).free_frames ≡ q.free_frames + n)
        × IsValid (free_range q (frame_addr q s) n)
    back = free_range_lem g.valid s n (omega (arith, g.managed, g.changes.same_nframes)) pos in_use

-- Giving back what `pmm_alloc_range` handed out, if it did, restores the use of every frame and the
-- count, and the manager stays valid.
pub free-alloc_range :
    {p : Pmm} (n : ℕ) → IsValid p → 0 < n → (alloc_range p n).1 ≢ 0 → Restored p n (alloc_range p n)
free-alloc_range {p} n v pos given = elim (alloc_range_lem n v pos) [
  | inl (e, _) ↦ absurd (given (ap (λ r. r.1) e))
  | inr (s, g, _) ↦ Grants-Restored n s (alloc_range p n).0 (alloc_range p n).1 v pos g
]
