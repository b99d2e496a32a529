-- ===== src/Keyboard.antt =====
-- kernel/keyboard.cpp: the ring of characters, and the handler that fills it from scan codes.
pub mod Ring
mod Tests
use cofeuos.Base.{
  ℕ, zero, suc, ◌+◌, ◌-◌, ◌%◌, Bool, true, false, not, ◌&&◌, ◌||◌, List, [], ◌∷◌, leb, ◌==◌,
  if◌then◌else◌, get_or, set,
}

abbrev pub ring_size : ℕ
ring_size = 256

-- The tables of characters by scan code, which have 0 from their ends on.
abbrev pub normal : List ℕ
normal =
    0 ∷ 27 ∷ 49 ∷ 50 ∷ 51 ∷ 52 ∷ 53 ∷ 54 ∷ 55 ∷ 56 ∷ 57 ∷ 48 ∷ 45 ∷ 61 ∷ 8 ∷ 9 ∷ 113 ∷ 119 ∷ 101
    ∷ 114 ∷ 116 ∷ 121 ∷ 117 ∷ 105 ∷ 111 ∷ 112 ∷ 91 ∷ 93 ∷ 10 ∷ 0 ∷ 97 ∷ 115 ∷ 100 ∷ 102 ∷ 103 ∷ 104
    ∷ 106 ∷ 107 ∷ 108 ∷ 59 ∷ 39 ∷ 96 ∷ 0 ∷ 92 ∷ 122 ∷ 120 ∷ 99 ∷ 118 ∷ 98 ∷ 110 ∷ 109 ∷ 44 ∷ 46 ∷ 47
    ∷ 0 ∷ 42 ∷ 0 ∷ 32 ∷ 32 ∷ []

abbrev pub shifted : List ℕ
shifted =
    0 ∷ 27 ∷ 33 ∷ 64 ∷ 35 ∷ 36 ∷ 37 ∷ 94 ∷ 38 ∷ 42 ∷ 40 ∷ 41 ∷ 95 ∷ 43 ∷ 8 ∷ 9 ∷ 81 ∷ 87 ∷ 69 ∷ 82
    ∷ 84 ∷ 89 ∷ 85 ∷ 73 ∷ 79 ∷ 80 ∷ 123 ∷ 125 ∷ 10 ∷ 0 ∷ 65 ∷ 83 ∷ 68 ∷ 70 ∷ 71 ∷ 72 ∷ 74 ∷ 75 ∷ 76
    ∷ 58 ∷ 34 ∷ 126 ∷ 0 ∷ 124 ∷ 90 ∷ 88 ∷ 67 ∷ 86 ∷ 66 ∷ 78 ∷ 77 ∷ 60 ∷ 62 ∷ 63 ∷ 0 ∷ 42 ∷ 0 ∷ 32
    ∷ 32 ∷ []

-- The file's variables, and the flag of kernel/util.cpp that the interrupt key sets.
pub record Keyboard : Type 0 where
  pub ring : List ℕ
  pub head : ℕ
  pub tail : ℕ
  pub shift : Bool
  pub caps : Bool
  pub extended : Bool
  pub ctrl : Bool
  pub intr_pending : Bool

pub push : Keyboard → ℕ → Keyboard
push k c =
    let n = (k.head + 1) % ring_size in
    if n == k.tail then k else record k { ring = set k.ring k.head c; head = n }

pub init : Keyboard → Keyboard
init k = record k {
  head = 0;
  tail = 0;
  shift = false;
  caps = false;
  extended = false;
  ctrl = false;
}

-- A key that is let go, behind the prefix 0xE0 or not.
pub release : Keyboard → ℕ → Keyboard
release k sc =
    if k.extended
    then record k { extended = false; ctrl = if sc == 0x1d then false else k.ctrl }
    else record k {
      shift = if sc == 0x2a || sc == 0x36 then false else k.shift;
      ctrl = if sc == 0x1d then false else k.ctrl;
    }

-- A key that is pressed behind the prefix.
pub press_extended : Keyboard → ℕ → Keyboard
press_extended k sc =
    if sc == 0x1d
    then record k { ctrl = true }
    else if sc == 0x48
    then push k 0x80
    else if sc == 0x50
    then push k 0x81
    else if sc == 0x4b
    then push k 0x82
    else if sc == 0x4d
    then push k 0x83
    else k

-- The character of a key, in upper case if the lock is on.
pub char_of : Keyboard → ℕ → ℕ
char_of k sc =
    let c = if k.shift then get_or shifted sc 0 else get_or normal sc 0 in
    if leb 97 c && leb c 122 && k.caps then c - 32 else c

pub type_key : Keyboard → ℕ → Keyboard
type_key k sc = if char_of k sc == 0 then k else push k (char_of k sc)

pub press : Keyboard → ℕ → Keyboard
press k sc =
    if sc == 0x2a || sc == 0x36
    then record k { shift = true }
    else if sc == 0x1d
    then record k { ctrl = true }
    else if sc == 0x3a
    then record k { caps = not k.caps }
    else if k.ctrl && sc == 0x2e
    then record k { intr_pending = true }
    else type_key k sc

-- `keyboard_irq` with the byte that the port gives.
pub irq : Keyboard → ℕ → Keyboard
irq k code =
    let sc = code % 128 in
    if code == 0xe0
    then record k { extended = true }
    else if leb 128 code
    then release k sc
    else if k.extended
    then press_extended (record k { extended = false }) sc
    else press k sc

pub has_char : Keyboard → Bool
has_char k = not (k.head == k.tail)

-- The value is the character, or 0.
pub getc : Keyboard → Keyboard × ℕ
getc k =
    if k.head == k.tail
    then (k, 0)
    else (record k { tail = (k.tail + 1) % ring_size }, get_or k.ring k.tail 0)
