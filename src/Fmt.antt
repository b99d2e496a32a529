-- ===== src/Fmt.antt =====
-- kernel/kprintf.cpp: formatted output to the screen, to the serial line and to buffers.
pub mod Digits
pub mod Emitters
pub mod Bounded
pub mod Ends
mod Tests
use cofeuos.Base.{
  ℕ, zero, suc, ◌+◌, ◌-◌, ◌*◌, ◌/◌, ◌%◌, ◌^◌, Bool, true, false, not, ◌&&◌, ◌||◌, List, [], ◌∷◌,
  ◌++◌, Option, none, some, ltb, leb, ◌==◌, if◌then◌else◌, length,
}

-- `t[i]`
abbrev pub digit_char : Bool → ℕ → ℕ
digit_char upper i = if ltb i 10 then 48 + i else if upper then 55 + i else 87 + i

-- The digits of `v`, the last first, as they are written to the array; one round for each of the 64
-- bits is enough. The array has 24 places: `overruns` is whether they are too few.
unfoldable pub digits_of : ℕ → ℕ → Bool → ℕ → List ℕ
digits_of zero base upper v = []
digits_of (suc k) base upper v =
    let rest = digits_of k base upper (v / base) in
    digit_char upper (v % base) ∷ (if v / base == 0 then [] else rest)

-- "(null)"
abbrev pub null_text : List ℕ
null_text = 40 ∷ 110 ∷ 117 ∷ 108 ∷ 108 ∷ 41 ∷ []

-- What stands between a '%' and its letter, and the format from the letter on.
pub record Spec : Type 0 where
  pub left : Bool
  pub fill : ℕ
  pub width : ℕ
  pub rest : List ℕ

unfoldable pub skip_dashes : Bool → List ℕ → Bool × List ℕ
skip_dashes left [] = (left, [])
skip_dashes left (c ∷ f) = if c == 45 then skip_dashes true f else (left, c ∷ f)

abbrev pub zero_fill : List ℕ → ℕ × List ℕ
zero_fill [] = (32, [])
zero_fill (c ∷ f) = if c == 48 then (48, f) else (32, c ∷ f)

unfoldable pub read_width : ℕ → List ℕ → ℕ × List ℕ
read_width n [] = (n, [])
read_width n (c ∷ f) = if leb 48 c && leb c 57 then read_width (n * 10 + (c - 48)) f else (n, c ∷ f)

unfoldable pub skip_sizes : List ℕ → List ℕ
skip_sizes [] = []
skip_sizes (c ∷ f) = if c == 108 || c == 122 || c == 104 then skip_sizes f else c ∷ f

unfoldable pub read_spec : List ℕ → Spec
read_spec f =
    let (left, f1) = skip_dashes false f in
    let (fill, f2) = zero_fill f1 in
    let (width, f3) = read_width 0 f2 in
    record { left = left; fill = fill; width = width; rest = skip_sizes f3 }

-- The base of a letter and whether its digits are upper case; none if it has no number.
abbrev pub base_of : ℕ → Option (ℕ × Bool)
base_of c =
    if c == 100 || c == 105 || c == 117
    then some (10, false)
    else if c == 120 || c == 112
    then some (16, false)
    else if c == 88
    then some (16, true)
    else if c == 98
    then some (2, false)
    else none

abbrev pub is_signed : ℕ → Bool
is_signed c = c == 100 || c == 105

-- The arguments of a call: its words one after the other, and the text at each address.
pub record Args : Type 0 where
  pub word : ℕ → ℕ
  pub text : ℕ → List ℕ

-- What the output goes through: the emitter's state, and the number of words that are used.
pub record Run (S : Type 0) : Type 0 where
  pub state : S
  pub used : ℕ

-- How a run ends: the bound on the rounds is reached, which is none of the code's ends; a number has
-- more digits than the array has places; the format is read on behind its 0; or at that 0.
pub data End (A : Type 0) : Type 0 where
  spent : End A
  overrun : A → End A
  over_end : A → End A
  ended : A → End A

abbrev pub map_end : {A B : Type 0} → (A → B) → End A → End B
map_end f spent = spent
map_end f (overrun a) = overrun (f a)
map_end f (over_end a) = over_end (f a)
map_end f (ended a) = ended (f a)

-- The number that is printed without its sign.
abbrev pub magnitude : ℕ → ℕ → ℕ
magnitude c w = if is_signed c && leb (2 ^ 63) w then 2 ^ 64 - 1 - w + 1 else w

-- The digits of the number `w` for the letter `c` do not fit the array.
abbrev pub overruns_in : ℕ → ℕ → Option (ℕ × Bool) → Bool
overruns_in c w none = false
overruns_in c w (some (base, upper)) = ltb 24 (length (digits_of 64 base upper (magnitude c w)))

unfoldable pub overruns : ℕ → ℕ → Bool
overruns c w = overruns_in c w (base_of c)

-- An emitter `emit`, and what "%n" does with the address that it gets, `put_count`.
module _ {S : Type 0} (emit : S → ℕ → S) (put_count : S → ℕ → S) where
  unfoldable pub pad : ℕ → ℕ → S → S
  pad zero fill s = s
  pad (suc n) fill s = pad n fill (emit s fill)

  unfoldable pub emit_text : S → List ℕ → S
  emit_text s [] = s
  emit_text s (c ∷ cs) = emit_text (emit s c) cs

  -- The digits, the one that is stored last first.
  unfoldable pub emit_back : S → List ℕ → S
  emit_back s [] = s
  emit_back s (d ∷ ds) = emit (emit_back s ds) d

  abbrev pub pad_left : Spec → ℕ → ℕ → S → S
  pad_left p fill n s = if p.left then s else pad (p.width - n) fill s

  abbrev pub pad_right : Spec → ℕ → S → S
  pad_right p n s = if p.left then pad (p.width - n) 32 s else s

  unfoldable pub print_u64 : Spec → ℕ → Bool → ℕ → ℕ → S → S
  print_u64 p base upper fill v s =
      let ds = digits_of 64 base upper v in
      pad_right p (length ds) (emit_back (pad_left p fill (length ds) s) ds)

  unfoldable pub print_text : Spec → List ℕ → S → S
  print_text p t s = pad_right p (length t) (emit_text (pad_left p 32 (length t) s) t)

  -- A number, with its sign if the letter asks for one.
  unfoldable pub print_number : Spec → ℕ → ℕ × Bool → ℕ → S → S
  print_number p c (base, upper) w s =
      let s1 = if c == 112 then emit (emit s 48) 120 else s in
      if is_signed c && leb (2 ^ 63) w
      then print_u64 p base upper 32 (2 ^ 64 - 1 - w + 1) (emit s1 45)
      else print_u64 p base upper p.fill w s1

  abbrev pub print_or : Spec → ℕ → ℕ → Run S → Option (ℕ × Bool) → Run S
  print_or p c w r none = record r { state = emit (emit r.state 37) c }
  print_or p c w r (some b) = record r { state = print_number p c b w r.state; used = r.used + 1 }

  -- The letter `c` behind a '%'.
  unfoldable pub convert : Args → Spec → ℕ → Run S → Run S
  convert a p c r =
      let w = a.word r.used in
      if c == 99
      then record r { state = emit r.state (w % 256); used = r.used + 1 }
      else if c == 115
      then record r {
        state = print_text p (if w == 0 then null_text else a.text w) r.state;
        used = r.used + 1;
      }
      else if c == 110
      then record r { state = if w == 0 then r.state else put_count r.state w; used = r.used + 1 }
      else if c == 37
      then record r { state = emit r.state 37 }
      else print_or p c w r (base_of c)

  -- `vformat`, with fuel. Where the letter behind a '%' is the format's 0, it is taken as one, and
  -- the loop steps over it.
  unfoldable pub vformat : ℕ → Args → List ℕ → Run S → End (Run S)
  vformat zero a f r = spent
  vformat (suc k) a [] r = ended r
  vformat (suc k) a (c ∷ f) r =
      let p = read_spec f in
      let plain = vformat k a f (record r { state = emit r.state c }) in
      let special : End (Run S) = elim p.rest [
        | [] ↦ over_end (convert a p 0 r)
        | d ∷ g ↦
            let rest = vformat k a g (convert a p d r) in
            if overruns d (a.word r.used) then overrun r else rest
      ] in
      if c == 37 then special else plain

-- `emit_buf` and its context.
pub record BufCtx : Type 0 where
  pub mem : ℕ → ℕ
  pub p : ℕ
  pub end : ℕ
  pub count : ℕ

abbrev pub store : (ℕ → ℕ) → ℕ → ℕ → ℕ → ℕ
store mem a v x = if x == a then v else mem x

-- An int, the lowest byte first.
abbrev pub store_int : (ℕ → ℕ) → ℕ → ℕ → ℕ → ℕ
store_int mem a v =
    store (store (store (store mem a (v % 256)) (a + 1) (v / 256 % 256)) (a + 2) (v / 65536 % 256))
      (a + 3) (v / 16777216 % 256)

abbrev pub load_int : (ℕ → ℕ) → ℕ → ℕ
load_int mem a = mem a + mem (a + 1) * 256 + mem (a + 2) * 65536 + mem (a + 3) * 16777216

abbrev pub emit_buf : BufCtx → ℕ → BufCtx
emit_buf b c =
    if ltb b.p b.end
    then record b { mem = store b.mem b.p c; p = b.p + 1; count = b.count + 1 }
    else record b { count = b.count + 1 }

-- "%n" with `emit_buf`.
abbrev pub put_buf_count : BufCtx → ℕ → BufCtx
put_buf_count b w = record b { mem = store_int b.mem w b.count }

abbrev pub begin : {S : Type 0} → S → Run S
begin s = record { state = s; used = 0 }

-- What `ksnprintf` leaves in memory, and the number of characters.
abbrev pub close_buf : Run BufCtx → (ℕ → ℕ) × ℕ
close_buf r = (store r.state.mem r.state.p 0, r.state.count)

unfoldable pub ksnprintf : (ℕ → ℕ) → ℕ → ℕ → Args → List ℕ → End ((ℕ → ℕ) × ℕ)
ksnprintf mem buf n a f =
    if n == 0
    then ended (mem, 0)
    else map_end close_buf (
        vformat emit_buf put_buf_count (length f + 1) a f
          (begin record { mem = mem; p = buf; end = buf + n - 1; count = 0 }))

-- The screen, the serial line, the memory, and the state of a capture: its buffer, its end, and the
-- address of its length.
pub record Output : Type 0 where
  pub screen : List ℕ
  pub serial : List ℕ
  pub mem : ℕ → ℕ
  pub buf : ℕ
  pub end : ℕ
  pub len : ℕ
  pub capturing : Bool

abbrev pub serial_line : List ℕ → ℕ → List ℕ
serial_line line c = if c == 10 then line ++ (13 ∷ c ∷ []) else line ++ (c ∷ [])

abbrev pub emit_serial : Output → ℕ → Output
emit_serial o c = record o { serial = serial_line o.serial c }

abbrev pub emit_vga_serial : Output → ℕ → Output
emit_vga_serial o c = record o { screen = o.screen ++ (c ∷ []); serial = serial_line o.serial c }

abbrev pub keep_char : Output → ℕ → Output
keep_char o c =
    if not (o.buf == 0) && ltb o.buf o.end
    then record o { mem = store o.mem o.buf c; buf = o.buf + 1 }
    else o

abbrev pub count_char : Output → Output
count_char o =
    if o.len == 0
    then o
    else record o { mem = store_int o.mem o.len ((load_int o.mem o.len + 1) % 2 ^ 32) }

abbrev pub emit_capture : Output → ℕ → Output
emit_capture o c = count_char (keep_char o c)

-- "%n" with the other emitters.
abbrev pub put_zero : Output → ℕ → Output
put_zero o w = record o { mem = store_int o.mem w 0 }

unfoldable pub kprintf : Output → Args → List ℕ → End (Run Output)
kprintf o a f =
    if o.capturing
    then vformat emit_capture put_zero (length f + 1) a f (begin o)
    else vformat emit_vga_serial put_zero (length f + 1) a f (begin o)

unfoldable pub kslog : Output → Args → List ℕ → End (Run Output)
kslog o a f = vformat emit_serial put_zero (length f + 1) a f (begin o)

unfoldable pub output_capture_begin : Output → ℕ → ℕ → ℕ → Output
output_capture_begin o buf cap len = record o {
  buf = buf;
  end = buf + cap;
  len = len;
  mem = if len == 0 then o.mem else store_int o.mem len 0;
  capturing = true;
}

unfoldable pub output_capture_end : Output → Output
output_capture_end o = record o { capturing = false; buf = 0; end = 0; len = 0 }
