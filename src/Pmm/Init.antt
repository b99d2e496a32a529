-- ===== src/Pmm/Init.antt =====
-- `pmm_init` of kernel/pmm.cpp.
use cofeuos.Base.{
  ℕ, ◌+◌, ◌-◌, ◌*◌, ◌/◌, ◌%◌, ◌^◌, ◌≤◌, ◌<◌, ◌≡◌, refl, sym, ◌⊎◌, inl, inr, false, List, [], ◌∷◌,
  arith, leb, length, replicate, length-replicate, add64, sub64, mul64, Bool-cases, leb→lt, take,
}
use cofeuos.Bitmap.Laws.{replicate-AllBytes, test-replicate}
use cofeuos.Bitmap.Count.{free_below-replicate}
use cofeuos.Pmm.{
  Pmm, Boot, Survey, E820Entry, blank, init, survey, e820_survey, cmos_survey, e820_scan,
  e820_entry, first_frame, bitmap_frames, one_gib, at_most,
}
use cofeuos.Pmm.Inv.{IsValid, AllFrames}

e820_entry-top : (s : Survey) (e : E820Entry) → s.top ≤ one_gib → (e820_entry s e).top ≤ one_gib
unfolding e820_entry
e820_entry-top s e h = ground arith

e820_scan-top :
    (s : Survey) (es : List E820Entry) → s.top ≤ one_gib → (e820_scan s es).top ≤ one_gib
unfolding e820_scan
e820_scan-top s [] h = h
e820_scan-top s (e ∷ es) h = e820_scan-top (e820_entry s e) es (e820_entry-top s e h)

-- However the size was found, no frame above the first gigabyte is used.
survey-top : (b : Boot) → (survey b).top ≤ one_gib
unfolding survey e820_survey cmos_survey
survey-top b = ground (
  arith,
  e820_scan-top (record { have_map = false; top = 0; kb = 0 }) (take (at_most 64 b.cnt) b.map)
      (omega arith),
)

-- What `pmm_init` leaves: a valid manager whose frames are all free, above the kernel and its map.
pub record Ready (b : Boot) (q : Pmm) : Type 0 where
  pub valid : IsValid q
  pub all_free : AllFrames false q 0 q.nframes
  pub above : (q.nframes ≡ 0) ⊎ (b.kernel_end + length q.bits ≤ q.base)
  pub below_top : (q.nframes ≡ 0) ⊎ (q.base + q.nframes * 4096 ≤ q.ram_top)

module _ (b : Boot) (small : b.kernel_end + 4095 < 2 ^ 32) where
  first_frame_bounds :
      (b.kernel_end ≤ first_frame b.kernel_end) × (first_frame b.kernel_end % 4096 ≡ 0)
  unfolding first_frame
  first_frame_bounds = omega arith

  -- The map's own frames are among those counted, and hold a bit for each of the others.
  bitmap_fits :
      (n : ℕ)
      → n ≤ 2 ^ 18
      → (bitmap_frames n ≤ n) × ((n - bitmap_frames n + 7) / 8 ≤ bitmap_frames n * 4096)
  unfolding bitmap_frames
  bitmap_fits n h = omega arith

  laid_out :
      (top start bm : ℕ)
      → top ≤ one_gib
      → start < top
      → bm ≤ sub64 top start / 4096
      → (sub64 (sub64 top start / 4096) bm ≡ sub64 top start / 4096 - bm)
        × (add64 start (mul64 bm 4096) ≡ start + bm * 4096)
        × (start + bm * 4096 + (sub64 top start / 4096 - bm) * 4096 ≤ top)
  laid_out top start bm h lt le = omega arith

  ready :
      (start bm kept : ℕ) (top kb : ℕ)
      → 0 < start
      → start % 4096 ≡ 0
      → b.kernel_end ≤ start
      → (kept + 7) / 8 ≤ bm * 4096
      → start + bm * 4096 + kept * 4096 ≤ top
      → top ≤ one_gib
      → Ready b (record {
        bits = replicate ((kept + 7) / 8) 0;
        base = start + bm * 4096;
        nframes = kept;
        free_frames = kept;
        ram_top = top;
        ram_kb = kb;
      })
  ready start bm kept top kb pos al above map_fits below h =
      let len : length (replicate {A = ℕ} ((kept + 7) / 8) 0) ≡ (kept + 7) / 8 =
        length-replicate ((kept + 7) / 8) 0 in
      record {
        valid = record {
          aligned = omega arith;
          inside = omega arith;
          placed = inr (omega arith);
          covered = omega arith;
          bytes = replicate-AllBytes ((kept + 7) / 8);
          counted = sym (free_below-replicate ((kept + 7) / 8) kept);
        };
        all_free = λ j lo hi. test-replicate ((kept + 7) / 8) j;
        above = inr (omega arith);
        below_top = inr below;
      }

  -- On a kernel whose image ends at least 4096 bytes below 4 GiB `pmm_init` leaves a valid manager
  -- whose frames are all free, below the detected top of memory and the first gigabyte, and the
  -- kernel's image and the bit map lie below the first frame, whatever map the BIOS gave.
  pub init_lem : 0 < b.kernel_end → Ready b (init blank b)
  unfolding init
  init_lem pos =
      let start : ℕ = first_frame b.kernel_end in
      let top : ℕ = (survey b).top in
      elim (Bool-cases (leb top start)) [
        | inl none_left ↦ rw none_left (record {
          valid = record {
            aligned = refl;
            inside = omega arith;
            placed = inl refl;
            covered = omega arith;
            bytes = tt;
            counted = sym (free_below-replicate 0 0);
          };
          all_free = λ j lo hi. absurd (omega arith);
          above = inl refl;
          below_top = inl refl;
        })
        | inr some_left ↦
            let f =
              bitmap_fits (sub64 top start / 4096)
                (omega (arith, survey-top b, leb→lt _ _ some_left)) in
            let l =
              laid_out top start (bitmap_frames (sub64 top start / 4096)) (survey-top b)
                (leb→lt _ _ some_left) f.0 in
            rw (some_left, l.0, l.1)
              (ready start _ _ top _ (omega (arith, first_frame_bounds)) first_frame_bounds.1
                first_frame_bounds.0 f.1 l.2 (survey-top b))
      ]
