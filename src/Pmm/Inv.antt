-- ===== src/Pmm/Inv.antt =====
-- The invariant of kernel/pmm.cpp's variables, and what a frame is.
use cofeuos.Base.{ℕ, ◌+◌, ◌*◌, ◌%◌, ◌≤◌, ◌<◌, ◌≡◌, ◌⊎◌, Bool, length, ◌&&◌, leb, ltb, if◌then◌else◌}
use cofeuos.Bitmap.{test, AllBytes}
use cofeuos.Bitmap.Count.{free_below}
use cofeuos.Pmm.{Pmm, one_gib}

pub record IsValid (p : Pmm) : Type 0 where
  pub aligned : p.base % 4096 ≡ 0
  pub inside : p.base + p.nframes * 4096 ≤ one_gib
  pub placed : (p.nframes ≡ 0) ⊎ (0 < p.base)
  pub covered : p.nframes ≤ 8 * length p.bits
  pub bytes : AllBytes p.bits
  pub counted : p.free_frames ≡ free_below p.bits p.nframes

-- The address of frame `i`, and whether it is in use.
abbrev pub frame_addr : Pmm → ℕ → ℕ
frame_addr p i = p.base + i * 4096

abbrev pub taken : Pmm → ℕ → Bool
taken p i = test p.bits i

-- `q` is `p` with the `n` frames from frame `s` on set to `used`, and no other.
pub record Changes (p q : Pmm) (s n : ℕ) (used : Bool) : Type 0 where
  pub same_base : q.base ≡ p.base
  pub same_nframes : q.nframes ≡ p.nframes
  pub frames : (j : ℕ) → taken q j ≡ (if leb s j && ltb j (s + n) then used else taken p j)

-- Every one of the `n` frames from frame `s` on is free, or in use.
abbrev pub AllFrames : Bool → Pmm → ℕ → ℕ → Type 0
AllFrames used p s n = (j : ℕ) → s ≤ j → j < s + n → taken p j ≡ used
