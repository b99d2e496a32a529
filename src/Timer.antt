-- ===== src/Timer.antt =====
-- kernel/timer.cpp: the counters of the timer's interrupts and of the seconds.
mod Tests
use cofeuos.Base.{
  ℕ, zero, suc, ◌+◌, ◌-◌, ◌*◌, ◌/◌, ◌%◌, ◌^◌, ◌<◌, ◌≡◌, refl, ap, ◌∙◌, Bool, true, false, ◌==◌,
  if◌then◌else◌, arith, Bool-cases, inl, inr, add64, add32,
}

pub record Timer : Type 0 where
  pub ticks : ℕ
  pub seconds : ℕ

-- `timer_init` but for the ports.
abbrev pub timer_init : Timer
timer_init = record { ticks = 0; seconds = 0 }

unfoldable pub timer_irq : Timer → Timer
timer_irq t =
    let ticks = add64 t.ticks 1 in
    record { ticks = ticks; seconds = if ticks % 100 == 0 then add32 t.seconds 1 else t.seconds }

abbrev pub timer_get_ticks : Timer → ℕ
timer_get_ticks t = t.ticks

abbrev pub timer_get_seconds : Timer → ℕ
timer_get_seconds t = t.seconds

-- `n` interrupts.
unfoldable pub irqs : ℕ → Timer → Timer
irqs zero t = t
irqs (suc n) t = timer_irq (irqs n t)

-- After `n` interrupts the ticks are n modulo 2^64, and the seconds n / 100 modulo 2^32, while
-- the ticks have not wrapped round.
pub irqs_lem :
    (n : ℕ)
    → n < 2 ^ 64
    → (timer_get_ticks (irqs n timer_init) ≡ n)
      × (timer_get_seconds (irqs n timer_init) ≡ n / 100 % 2 ^ 32)
unfolding irqs timer_irq
irqs_lem zero lt = (refl, omega arith)
irqs_lem (suc n) lt = ground (arith, irqs_lem n)
