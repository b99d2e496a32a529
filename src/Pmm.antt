-- ===== src/Pmm.antt =====
-- kernel/pmm.cpp: the physical memory manager, 4 KiB frames over a bit map.
pub mod Inv
pub mod Range
pub mod Frame
pub mod Alloc
pub mod Runs
pub mod Init
mod Tests
use cofeuos.Base.{
  ℕ, zero, suc, ◌+◌, ◌-◌, ◌*◌, ◌/◌, ◌%◌, ◌^◌, bit_or, Bool, true, false, not, ◌&&◌, ◌||◌, List, [],
  ◌∷◌, Option, none, some, ltb, leb, ◌==◌, if◌then◌else◌, replicate, take, u16_mod, u32_mod,
  u64_mod, add64, sub64, mul64,
}
use cofeuos.Bitmap.{test, mark, clear}

-- The file's static variables. `bits` is the bit map itself, not its address.
pub record Pmm : Type 0 where
  pub bits : List ℕ
  pub base : ℕ
  pub nframes : ℕ
  pub free_frames : ℕ
  pub ram_top : ℕ
  pub ram_kb : ℕ

-- The variables before `pmm_init`.
abbrev pub blank : Pmm
blank = record { bits = []; base = 0; nframes = 0; free_frames = 0; ram_top = 0; ram_kb = 0 }

-- A frame number's bit: the byte number `idx >> 3` is kept in 32 bits.
abbrev pub bit_of : ℕ → ℕ
bit_of idx = idx % 2 ^ 35

abbrev put_bit : Bool → List ℕ → ℕ → List ℕ
put_bit used bits idx = if used then mark bits (bit_of idx) else clear bits (bit_of idx)

pub range_mark : ℕ → List ℕ → ℕ → ℕ → Bool → List ℕ
range_mark base bits p zero used = bits
range_mark base bits p (suc n) used =
    range_mark base (put_bit used bits (sub64 p base / 4096)) (add64 p 4096) n used

-- The loop of `pmm_alloc_frame`, with the rounds left: the first free frame.
unfoldable pub scan_frame : List ℕ → ℕ → ℕ → Option ℕ
scan_frame bits zero i = none
scan_frame bits (suc k) i =
    let rest = scan_frame bits k (i + 1) in if not (test bits (bit_of i)) then some i else rest

unfoldable pub alloc_frame : Pmm → Pmm × ℕ
alloc_frame p = elim (scan_frame p.bits p.nframes 0) [
  | none ↦ (p, 0)
  | some i ↦ (
    record p { bits = mark p.bits (bit_of i); free_frames = sub64 p.free_frames 1 },
    add64 p.base (mul64 i 4096),
  )
]

-- The loop of `pmm_alloc_range`, with the rounds left, at frame `i` after `run` free frames.
-- The value is the number of the first frame of the run that is taken.
pub scan_range : List ℕ → ℕ → ℕ → ℕ → ℕ → ℕ → Option ℕ
scan_range bits nframes n zero i run = none
scan_range bits nframes n (suc k) i run =
    let longer = scan_range bits nframes n k (i + 1) (run + 1) in
    let afresh = scan_range bits nframes n k (i + 1) 0 in
    if ltb i nframes && not (test bits (bit_of i))
    then longer
    else if leb n run
    then some (sub64 i run)
    else afresh

pub alloc_range : Pmm → ℕ → Pmm × ℕ
alloc_range p n =
    if n == 0 then (p, 0) else elim (scan_range p.bits p.nframes n (p.nframes + 1) 0 0) [
      | none ↦ (p, 0)
      | some s ↦ (
        record p {
          bits = range_mark p.base p.bits (add64 p.base (mul64 s 4096)) n true;
          free_frames = sub64 p.free_frames n;
        },
        add64 p.base (mul64 s 4096),
      )
    ]

-- The address behind the last frame.
abbrev pub limit : Pmm → ℕ
limit p = add64 p.base (mul64 p.nframes 4096)

pub free_frame : Pmm → ℕ → Pmm
free_frame p phys = if ltb phys p.base || leb (limit p) phys then p else record p {
  bits = range_mark p.base p.bits phys 1 false;
  free_frames = add64 p.free_frames 1;
}

pub free_range : Pmm → ℕ → ℕ → Pmm
free_range p phys n =
    if n == 0
    then p
    else if ltb phys p.base || ltb (limit p) (add64 phys (mul64 n 4096))
    then p
    else record p {
      bits = range_mark p.base p.bits phys n false;
      free_frames = add64 p.free_frames n;
    }

pub total_kb : Pmm → ℕ
total_kb p = p.ram_kb

pub managed_kb : Pmm → ℕ
managed_kb p = mul64 p.nframes 4

pub free_frames_count : Pmm → ℕ
free_frames_count p = p.free_frames % u32_mod

pub total_frames : Pmm → ℕ
total_frames p = p.nframes % u32_mod

-- An entry of the memory map that the boot sector leaves behind.
pub record E820Entry : Type 0 where
  pub base : ℕ
  pub len : ℕ
  pub type : ℕ

-- What `pmm_init` finds: the map and its count in memory, the CMOS registers, the linker's symbol.
pub record Boot : Type 0 where
  pub cnt : ℕ
  pub map : List E820Entry
  pub cmos_read : ℕ → ℕ
  pub kernel_end : ℕ

pub record Survey : Type 0 where
  pub have_map : Bool
  pub top : ℕ
  pub kb : ℕ

abbrev pub one_gib : ℕ
one_gib = 0x40000000

abbrev pub one_mib : ℕ
one_mib = 0x100000

abbrev at_most : ℕ → ℕ → ℕ
at_most bound x = if ltb bound x then bound else x

-- One round of the loop over the map.
pub e820_entry : Survey → E820Entry → Survey
e820_entry s e =
    if not (e.type == 1)
    then s
    else let counted : Survey = record s { have_map = true; kb = add64 s.kb (e.len / 1024) } in
      let end = at_most one_gib (add64 e.base e.len) in
      if ltb e.base one_mib
      then counted
      else if leb one_gib e.base
      then counted
      else record counted { top = if ltb s.top end then end else s.top }

pub e820_scan : Survey → List E820Entry → Survey
e820_scan s [] = s
e820_scan s (e ∷ es) = e820_scan (e820_entry s e) es

pub e820_survey : Boot → Survey
e820_survey b =
    let s =
      e820_scan (record { have_map = false; top = 0; kb = 0 }) (take (at_most 64 b.cnt) b.map) in
    record s { kb = at_most (one_gib / 1024) s.kb }

-- The way round for a BIOS that gives no map.
pub cmos_survey : (ℕ → ℕ) → Survey
cmos_survey reg =
    let ext_low = bit_or (reg 0x31 * 256) (reg 0x30) % u16_mod in
    let ext_kb = ext_low + reg 0x17 * 64 in
    record {
      have_map = false;
      top = at_most one_gib (one_mib + ext_kb * 1024);
      kb = at_most (one_gib / 1024) (1024 + ext_kb);
    }

pub survey : Boot → Survey
survey b = let s = e820_survey b in if s.have_map then s else cmos_survey b.cmos_read

-- `(end + 0xfffu) & ~0xfffu`, where the mask is a 32-bit number.
pub first_frame : ℕ → ℕ
first_frame kernel_end = add64 kernel_end 4095 % u32_mod / 4096 * 4096

-- The frames that the bit map of `n` frames takes up.
pub bitmap_frames : ℕ → ℕ
bitmap_frames n = ((n + 7) / 8 + 4095) / 4096 % u32_mod

pub init : Pmm → Boot → Pmm
init p b =
    let s = survey b in
    let start = first_frame b.kernel_end in
    let all = sub64 s.top start / 4096 in
    let bm = bitmap_frames all in
    let kept = sub64 all bm in
    if leb s.top start
    then record p { nframes = 0; base = 0; ram_top = s.top; ram_kb = s.kb }
    else record {
      bits = replicate ((kept + 7) / 8) 0;
      base = add64 start (mul64 bm 4096);
      nframes = kept;
      free_frames = kept;
      ram_top = s.top;
      ram_kb = s.kb;
    }
