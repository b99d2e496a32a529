-- ===== src/Sched/Start.antt =====
-- `sched_init`, `load_image` and `sched_go` of kernel/sched.cpp.
use cofeuos.Base.{
  ℕ, zero, suc, ◌+◌, ◌-◌, ◌*◌, ◌/◌, true, false, ◌||◌, ◌&&◌, List, [], ◌∷◌, none, ◌==◌,
  if◌then◌else◌, ltb, leb, set,
}
use cofeuos.Pmm
use cofeuos.Sched.{Process, Machine, empty}

-- Entry `i` and those behind it, with the rounds left.
unfoldable pub image_frames : ℕ → ℕ → ℕ → List ℕ → List ℕ
image_frames zero i base fs = fs
image_frames (suc k) i base fs = image_frames k (i + 1) base (set fs i (base + i * 4096))

-- The program that is linked into the kernel, of `size` bytes: the words that the copy of it leaves from
-- its destination on.
pub record Image : Type 0 where
  pub size : ℕ
  pub word : ℕ → ℕ

abbrev pub copy_in : (ℕ → ℕ) → ℕ → Image → ℕ → ℕ
copy_in mem dst image x =
    if leb dst x && ltb x (dst + image.size) then image.word (x - dst) else mem x

unfoldable pub load_image : Machine → Image → Machine
load_image m image =
    let n = (image.size + 4095) / 4096 in
    let (q, base) = Pmm.alloc_range m.pmm n in
    if image.size == 0 || ltb (128 * 4096) image.size
    then record m { img_pages = 0 }
    else if base == 0
    then record m { pmm = q; img_pages = 0 }
    else record m {
      pmm = q;
      img_pages = n;
      img_frames = image_frames n 0 base m.img_frames;
      mem = copy_in m.mem base image;
    }

abbrev pub cleared : Process → Process
cleared p = record p { state = empty; pid = 0; cr3 = 0 }

unfoldable pub clear_table : List Process → List Process
clear_table [] = []
clear_table (p ∷ ps) = cleared p ∷ clear_table ps

unfoldable pub init : Machine → Image → Machine
init m image =
    load_image
      (record m {
        table = clear_table m.table;
        cur = none;
        kernel_ctx = 0;
        kernel_ctx_valid = false;
        sched_ready = false;
      })
      image

unfoldable pub go : Machine → Machine
go m = record m { sched_ready = true }
