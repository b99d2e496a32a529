-- ===== src/Pmm/Frame.antt =====
-- `pmm_free_frame` and `pmm_free_range` of kernel/pmm.cpp.
use cofeuos.Base.{
  ℕ, ◌+◌, ◌*◌, ◌^◌, ◌≤◌, ◌<◌, ◌≡◌, refl, subst, ◌⊎◌, inl, inr, Bool, true, false, arith, add64,
  sub64,
}
use cofeuos.Bitmap.{test}
use cofeuos.Bitmap.Count.{free_below, free_below-le, free_below-ext}
use cofeuos.Pmm.{Pmm, range_mark, free_frame, free_range}
use cofeuos.Pmm.Inv.{IsValid, Changes, AllFrames, frame_addr, taken}
use cofeuos.Pmm.Range.{
  fill, range_mark-fill, test-fill, fill-AllBytes, length-fill, free_below-fill_used,
  free_below-fill_free,
}

module _ {p : Pmm} (v : IsValid p) (s n : ℕ) (fits : s + n ≤ p.nframes) where
  pub range_mark_eq :
      (used : Bool) → range_mark p.base p.bits (frame_addr p s) n used ≡ fill p.bits s n used
  range_mark_eq used = range_mark-fill p.base s n p.bits used (omega arith)

  pub fill-Changes :
      (used : Bool) (c : ℕ)
      → Changes p (record p { bits = fill p.bits s n used; free_frames = c }) s n used
  fill-Changes used c = record {
    same_base = refl;
    same_nframes = refl;
    frames = λ j. test-fill n s p.bits used j v.bytes (omega arith);
  }

  pub fill-IsValid :
      (used : Bool) (c : ℕ)
      → c ≡ free_below (fill p.bits s n used) p.nframes
      → IsValid (record p { bits = fill p.bits s n used; free_frames = c })
  fill-IsValid used c e = record {
    aligned = v.aligned;
    inside = v.inside;
    placed = v.placed;
    covered = omega (arith, length-fill n s p.bits used);
    bytes = fill-AllBytes n s p.bits used v.bytes;
    counted = e;
  }

  pub used_count :
      AllFrames false p s n → sub64 p.free_frames n ≡ free_below (fill p.bits s n true) p.nframes
  used_count free = omega (
    arith,
    free_below-fill_used n s p.nframes p.bits v.bytes (omega arith) fits free,
    free_below-le p.bits p.nframes,
  )

  pub free_count :
      AllFrames true p s n → add64 p.free_frames n ≡ free_below (fill p.bits s n false) p.nframes
  free_count used = omega (
    arith,
    free_below-fill_free n s p.nframes p.bits v.bytes (omega arith) fits used,
    free_below-le p.bits p.nframes,
    free_below-le (fill p.bits s n false) p.nframes,
  )

  free_range_eq :
      0 < n
      → free_range p (frame_addr p s) n
        ≡ record p { bits = fill p.bits s n false; free_frames = add64 p.free_frames n }
  unfolding free_range
  free_range_eq pos = ground (arith, range_mark_eq false)

  -- `pmm_free_range` of `n` frames in use, from frame `s` on, frees exactly these, adds `n` to the
  -- count and keeps the manager valid.
  pub free_range_lem :
      0 < n
      → AllFrames true p s n
      → Changes p (free_range p (frame_addr p s) n) s n false
        × ((free_range p (frame_addr p s) n).free_frames ≡ p.free_frames + n)
        × IsValid (free_range p (frame_addr p s) n)
  free_range_lem pos used = rw (free_range_eq pos) (
    fill-Changes false _,
    omega (
      arith,
      v.counted,
      free_below-fill_free n s p.nframes p.bits v.bytes (omega arith) fits used,
      free_count used,
    ),
    fill-IsValid false _ (free_count used),
  )

  free_one_eq :
      n ≡ 1
      → free_frame p (frame_addr p s)
        ≡ record p { bits = fill p.bits s n false; free_frames = add64 p.free_frames n }
  unfolding free_frame
  free_one_eq e = rw e (ground (arith, subst (λ m. s + m ≤ p.nframes) e fits, one_mark))
    where
      one_mark : range_mark p.base p.bits (frame_addr p s) 1 false ≡ fill p.bits s 1 false
      one_mark = range_mark-fill p.base s 1 p.bits false (omega arith)

-- `pmm_free_frame` of a frame in use frees that frame alone, adds one to the count and keeps the
-- manager valid.
pub free_frame_lem :
    {p : Pmm} (v : IsValid p) (i : ℕ)
    → i < p.nframes
    → taken p i ≡ true
    → Changes p (free_frame p (frame_addr p i)) i 1 false
      × ((free_frame p (frame_addr p i)).free_frames ≡ p.free_frames + 1)
      × IsValid (free_frame p (frame_addr p i))
free_frame_lem {p} v i lt used = rw (free_one_eq v i 1 (omega arith) refl) (
  fill-Changes v i 1 (omega arith) false _,
  omega (
    arith,
    v.counted,
    free_below-fill_free 1 i p.nframes p.bits v.bytes (omega arith) (omega arith) only,
    free_count v i 1 (omega arith) only,
  ),
  fill-IsValid v i 1 (omega arith) false _ (free_count v i 1 (omega arith) only),
)
  where
    only : AllFrames true p i 1
    only j lo hi = let e : j ≡ i = omega arith in rw e used

-- An address that is below or behind the managed frames is ignored by both calls.
pub free_outside :
    {p : Pmm} (v : IsValid p) (phys n : ℕ)
    → (phys < p.base) ⊎ (frame_addr p p.nframes ≤ phys)
    → phys + n * 4096 < 2 ^ 64
    → (free_frame p phys ≡ p) × (free_range p phys n ≡ p)
unfolding free_frame free_range
free_outside v phys n (inl h) w = (ground arith, ground arith)
free_outside v phys n (inr h) w = (ground arith, ground arith)

-- A frame that is free already is counted a second time: the manager is not valid afterwards.
pub free_frame_twice :
    {p : Pmm} (v : IsValid p) (i : ℕ)
    → i < p.nframes
    → taken p i ≡ false
    → ¬ IsValid (free_frame p (frame_addr p i))
free_frame_twice {p} v i lt free w =
    absurd (omega (arith, v.counted, counted', free_below-le p.bits p.nframes, same p.nframes))
  where
    q : Pmm
    q = record p { bits = fill p.bits i 1 false; free_frames = add64 p.free_frames 1 }

    w' : IsValid q
    w' = rw (free_one_eq v i 1 (omega arith) refl) at w

    at_frame : (j : ℕ) → j ≡ i → test p.bits j ≡ false
    at_frame j e = rw e free

    counted' : add64 p.free_frames 1 ≡ free_below (fill p.bits i 1 false) p.nframes
    counted' = w'.counted

    unchanged : (j : ℕ) → test (fill p.bits i 1 false) j ≡ test p.bits j
    unchanged j = ground (arith, test-fill 1 i p.bits false j v.bytes (omega arith), at_frame j)

    same : (m : ℕ) → free_below (fill p.bits i 1 false) m ≡ free_below p.bits m
    same m = free_below-ext (fill p.bits i 1 false) p.bits m unchanged
