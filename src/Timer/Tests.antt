-- ===== src/Timer/Tests.antt =====
-- A run of kernel/timer.cpp.
use cofeuos.Base.{◌≡◌, refl}
use cofeuos.Timer.{irqs, timer_irq, timer_init}

two_seconds : (irqs 250 timer_init).seconds ≡ 2
unfolding irqs timer_irq
two_seconds = refl
