-- ===== src/Pmm/Alloc.antt =====
-- `pmm_alloc_frame` and `pmm_alloc_range` of kernel/pmm.cpp.
use cofeuos.Base.{
  ℕ, zero, suc, ◌+◌, ◌^◌, ◌≤◌, ◌<◌, ◌≡◌, refl, ◌⊎◌, inl, inr, ◌≢◌, true, false, not, List, Option,
  none, some, arith, ◌==◌, if◌then◌else◌, add64, sub64, mul64, Bool-cases,
}
use cofeuos.Bitmap.{test, mark}
use cofeuos.Pmm.{Pmm, scan_frame, alloc_frame, bit_of}
use cofeuos.Pmm.Inv.{IsValid, Changes, AllFrames, frame_addr}
use cofeuos.Pmm.Range.{fill, free_below-fill_used}
use cofeuos.Pmm.Frame.{fill-Changes, fill-IsValid, used_count}

abbrev Found : List ℕ → ℕ → ℕ → Option ℕ → Type 0
Found bits i k none = (j : ℕ) → i ≤ j → j < i + k → test bits j ≡ true
Found bits i k (some r) =
    (i ≤ r) × (r < i + k) × (test bits r ≡ false) × ((j : ℕ) → i ≤ j → j < r → test bits j ≡ true)

scan_frame-Found : (bits : List ℕ) (k i : ℕ) → i + k < 2 ^ 35 → Found bits i k (scan_frame bits k i)
unfolding scan_frame
scan_frame-Found bits zero i h = λ j lo hi. absurd (omega arith)
scan_frame-Found bits (suc k) i h =
    let same : bit_of i ≡ i = omega arith in
    rw same (split (Bool-cases (test bits i)) (scan_frame-Found bits k (i + 1) (omega arith)))
  where
    later : (o : Option ℕ) → test bits i ≡ true → Found bits (i + 1) k o → Found bits i (suc k) o
    later none e f = λ j lo hi. elim (Bool-cases (i == j)) [
      | inl same ↦ let e' : i ≡ j = ground arith in rw (← e') e
      | inr apart ↦ f j (ground arith) (omega arith)
    ]
    later (some r) e f = (
      omega (arith, f.0),
      omega (arith, f.1),
      f.2,
      λ j lo hi. elim (Bool-cases (i == j)) [
        | inl same ↦ let e' : i ≡ j = ground arith in rw (← e') e
        | inr apart ↦ f.3 j (ground arith) hi
      ],
    )

    split :
        (test bits i ≡ true) ⊎ (test bits i ≡ false)
        → Found bits (i + 1) k (scan_frame bits k (i + 1))
        → Found bits i (suc k) (if not (test bits i) then some i else scan_frame bits k (i + 1))
    split (inl e) f = rw e (later (scan_frame bits k (i + 1)) e f)
    split (inr e) f = rw e (omega arith, omega arith, e, λ j lo hi. absurd (omega arith))

-- What a call that hands out `n` frames from frame `s` on does.
pub record Grants (p : Pmm) (s n : ℕ) (r : Pmm × ℕ) : Type 0 where
  pub managed : s + n ≤ p.nframes
  pub were_free : AllFrames false p s n
  pub address : r.1 ≡ frame_addr p s
  pub nonzero : r.1 ≢ 0
  pub changes : Changes p r.0 s n true
  pub counted : r.0.free_frames + n ≡ p.free_frames
  pub valid : IsValid r.0

pub fill-Grants :
    {p : Pmm} (v : IsValid p) (s n : ℕ)
    → s + n ≤ p.nframes
    → 0 < n
    → AllFrames false p s n
    → Grants p s n (
      record p { bits = fill p.bits s n true; free_frames = sub64 p.free_frames n },
      frame_addr p s,
    )
fill-Grants {p} v s n fits pos free = record {
  managed = fits;
  were_free = free;
  address = refl;
  nonzero = λ e. omega (arith, v.placed);
  changes = fill-Changes v s n fits true _;
  counted = omega (
    arith,
    v.counted,
    used_count v s n fits free,
    free_below-fill_used n s p.nframes p.bits v.bytes (omega arith) fits free,
  );
  valid = fill-IsValid v s n fits true _ (used_count v s n fits free);
}

abbrev pub OneFrame : Pmm → Pmm × ℕ → Type 0
OneFrame p r =
    ((r ≡ (p, 0)) × AllFrames true p 0 p.nframes)
    ⊎ ((i : ℕ) × Grants p i 1 r × AllFrames true p 0 i)

-- `pmm_alloc_frame` on a valid manager hands out the first free frame, or returns 0 and changes
-- nothing where every frame is in use.
pub alloc_frame_lem : {p : Pmm} → IsValid p → OneFrame p (alloc_frame p)
unfolding alloc_frame fill
alloc_frame_lem {p} v =
    go (scan_frame p.bits p.nframes 0) (scan_frame-Found p.bits p.nframes 0 (omega arith))
  where
    given :
        (i : ℕ)
        → Found p.bits 0 p.nframes (some i)
        → Grants p i 1 (
          record p { bits = mark p.bits (bit_of i); free_frames = sub64 p.free_frames 1 },
          add64 p.base (mul64 i 4096),
        )
    given i f =
        let same : bit_of i ≡ i = omega (arith, f.1) in
        let addr : add64 p.base (mul64 i 4096) ≡ frame_addr p i = omega (arith, f.1) in
        rw (same, addr)
          (fill-Grants v i 1 (omega (arith, f.1)) (omega arith)
            (λ j lo hi. let e : j ≡ i = omega arith in rw e f.2))

    go :
        (o : Option ℕ)
        → Found p.bits 0 p.nframes o
        → OneFrame p (elim o [
          | none ↦ (p, 0)
          | some i ↦ (
            record p { bits = mark p.bits (bit_of i); free_frames = sub64 p.free_frames 1 },
            add64 p.base (mul64 i 4096),
          )
        ])
    go none f = inl (refl, f)
    go (some i) f = inr (i, given i f, λ j lo hi. f.3 j lo (omega arith))
