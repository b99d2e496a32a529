-- ===== src/Pmm/Tests.antt =====
-- Runs of kernel/pmm.cpp: six frames from 64 KiB on, of which frames 0 and 2 are in use.
use cofeuos.Base.{◌≡◌, refl, inr, [], ◌∷◌, arith}
use cofeuos.Bitmap.{test, byte_test, mark, clear, byte_mark, byte_clear}
use cofeuos.Bitmap.Count.{free_below}
use cofeuos.Pmm.{
  Pmm, Boot, blank, init, alloc_frame, scan_frame, alloc_range, scan_range, range_mark, free_frame,
  survey, e820_survey, e820_scan, e820_entry, first_frame, bitmap_frames,
}
use cofeuos.Pmm.Inv.{IsValid}
use cofeuos.Pmm.Alloc.{OneFrame, alloc_frame_lem}
use cofeuos.Pmm.Runs.{RangeGiven, alloc_range_lem}
use cofeuos.Pmm.Init.{Ready, init_lem}

abbrev pub six : Pmm
six = record {
  bits = 5 ∷ [];
  base = 0x10000;
  nframes = 6;
  free_frames = 4;
  ram_top = 0x16000;
  ram_kb = 88;
}

six-IsValid : IsValid six
unfolding free_below test byte_test
six-IsValid = record {
  aligned = refl;
  inside = omega arith;
  placed = inr (omega arith);
  covered = omega arith;
  bytes = omega arith;
  counted = refl;
}

-- Three frames in a row are first free behind frame 2.
alloc_range_runs : (alloc_range six 3).1 ≡ 0x13000
unfolding alloc_range scan_range test byte_test
alloc_range_runs = refl

alloc_range_fails : alloc_range six 4 ≡ (six, 0)
unfolding alloc_range scan_range test byte_test
alloc_range_fails = refl

alloc_frame_runs : alloc_frame six ≡ (record six { bits = 7 ∷ []; free_frames = 3 }, 0x11000)
unfolding alloc_frame scan_frame test byte_test mark byte_mark
alloc_frame_runs = refl

free_frame_runs : free_frame six 0x12000 ≡ record six { bits = 1 ∷ []; free_frames = 5 }
unfolding free_frame range_mark clear byte_clear
free_frame_runs = refl

-- 640 KiB of low memory, and 1 MiB to 4 MiB, under a kernel that ends at 1.5 MiB + 1.
abbrev boot : Boot
boot = record {
  cnt = 3;
  map =
      record { base = 0; len = 0xa0000; type = 1 }
      ∷ record { base = 0xf0000; len = 0x10000; type = 2 }
      ∷ record { base = 0x100000; len = 0x300000; type = 1 }
      ∷ [];
  cmos_read = λ _. 0;
  kernel_end = 0x180001;
}

init_runs : (init blank boot).nframes ≡ 638
unfolding init survey e820_survey e820_scan e820_entry first_frame bitmap_frames
init_runs = refl

init_lem_example : Ready boot (init blank boot)
init_lem_example = init_lem boot (omega arith) (omega arith)

alloc_frame_lem_example : OneFrame six (alloc_frame six)
alloc_frame_lem_example = alloc_frame_lem six-IsValid

alloc_range_lem_example : RangeGiven six 3 (alloc_range six 3)
alloc_range_lem_example = alloc_range_lem 3 six-IsValid (omega arith)
