-- ===== src/Keyboard/Tests.antt =====
-- Runs of kernel/keyboard.cpp: a ring that is about to go round, with one character waiting.
use cofeuos.Base.{◌≡◌, refl, true, false, replicate, arith, set, get_or}
use cofeuos.Keyboard.{Keyboard, push, char_of, type_key, press, irq}
use cofeuos.Keyboard.Ring.{IsRing, Handles, irq_lem}

abbrev late : Keyboard
late = record {
  ring = set (replicate 256 0) 254 65;
  head = 255;
  tail = 254;
  shift = false;
  caps = true;
  extended = false;
  ctrl = false;
  intr_pending = false;
}

late-IsRing : IsRing late
late-IsRing = record { full = refl; head_in = omega arith; tail_in = omega arith }

-- With the lock on, the key A gives an upper-case letter behind the one that waits.
irq_runs : ((irq late 0x1e).head ≡ 0) × (get_or (irq late 0x1e).ring 255 0 ≡ 65)
unfolding irq press type_key char_of push
irq_runs = (refl, refl)

-- The interrupt key sets the flag and puts nothing into the ring.
interrupt_runs :
    ((irq (irq late 0x1d) 0x2e).intr_pending ≡ true) × ((irq (irq late 0x1d) 0x2e).head ≡ 255)
unfolding irq press
interrupt_runs = (refl, refl)

irq_lem_example : Handles late (irq late 0x1e)
irq_lem_example = irq_lem late 0x1e late-IsRing
