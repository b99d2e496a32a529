-- ===== src/Sched/Turns.antt =====
-- Whose turn it is after `sched_reschedule` of kernel/sched.cpp, and what the other processes keep.
use cofeuos.Base.{
  ℕ, ◌<◌, ◌≡◌, refl, sym, ap, ◌∙◌, subst, ◌≢◌, inl, inr, true, Option, none, some, arith, ◌==◌,
  if◌then◌else◌, add64,
}
use cofeuos.Sched.{
  Process, Machine, ready, running, is_running, is_ready, max_proc, proc, wake, wake_sleepers,
  pick_ready,
}
use cofeuos.Sched.Pick.{RoundRobin, pick_ready_lem}
use cofeuos.Sched.Procs.{proc-wake_sleepers}
use cofeuos.Sched.Switch.{
  enter, start_first, from_kernel, set_aside, to_kernel, save_ctx, from_process, skip_of, dispatch,
  reschedule,
}
use cofeuos.Sched.Running.{IsSched, proc-enter, picked_in, wake-running, wake_sleepers-IsSched}
use cofeuos.Sched.Resched.{proc-aside, proc-saved, length-saved, skip_in}

-- Process `p` put down by a switch: it may run again if it was running, and its frame is saved.
abbrev pub put_down : ℕ → Process → Process
put_down ctx p = record p {
  state = if is_running p.state then ready else p.state;
  preempts = add64 p.preempts 1;
  ctx = ctx;
}

-- The entries between the two halves of a switch from `s`: `s` is put down.
abbrev pub down : Machine → ℕ → ℕ → ℕ → Process
down m ctx s j = if s == j then put_down ctx (proc m s) else proc m j

-- A switch from `s` to `n` with the frame `ctx`.
pub record Switches (m : Machine) (ctx s n : ℕ) (r : Machine × ℕ) : Type 0 where
  pub entries :
      (j : ℕ)
      → proc r.0 j
        ≡ (if n == j then record (down m ctx s n) { state = running } else down m ctx s j)
  pub frame : r.1 ≡ (down m ctx s n).ctx

module _ (m : Machine) (ctx : ℕ) (v : IsSched m) (s : ℕ) (is_cur : m.cur ≡ some s) where
  abbrev next : Option ℕ
  next = pick_ready (set_aside m s).table (some s) (skip_of m s)

  from_process-Switches :
      (n : ℕ) → n < max_proc → Switches m ctx s n (from_process (set_aside m s) s ctx (some n))
  unfolding from_process
  from_process-Switches n lt =
      let aside = proc-aside m ctx v s is_cur in
      let saved = proc-saved m ctx v s is_cur in
      let entered = λ (j : ℕ).
        proc-enter (save_ctx (set_aside m s) s ctx) n j
          (omega (arith, length-saved m ctx v s is_cur)) in
      record {
        entries = λ j. ground (arith, entered j, saved j, saved n, aside j, aside n, aside s);
        frame = ground (arith, saved n, aside n, aside s);
      }

  -- A running process is not chosen again where another is ready.
  rotates :
      (n j : ℕ)
      → RoundRobin (set_aside m s).table (some s) (skip_of m s) (some n)
      → j < max_proc
      → is_ready (proc m j).state ≡ true
      → is_running (proc m s).state ≡ true
      → j ≢ s
      → n ≢ s
  rotates n j (inl (_, _, _, hit, _)) lt r run ne e = ground arith
  rotates n j (inr (_, _, miss)) lt r run ne e =
      ground (arith, miss j, proc-aside m ctx v s is_cur j)

  -- The choice from a process, when some process `j` is ready.
  chosen :
      (o : Option ℕ) (j : ℕ)
      → RoundRobin (set_aside m s).table (some s) (skip_of m s) o
      → j < max_proc
      → is_ready (proc m j).state ≡ true
      → (n : ℕ) × (o ≡ some n)
        × (n < max_proc)
        × (is_running (proc m s).state ≡ true → j ≢ s → n ≢ s)
  chosen none j f lt r = absurd (ground (arith, f j, proc-aside m ctx v s is_cur j))
  chosen (some n) j f lt r = (
    n,
    refl,
    (picked_in (set_aside m s).table (some s) (skip_of m s) n (skip_in m ctx v s is_cur) f).0,
    rotates n j f lt r,
  )

  chosen-Switches :
      (n : ℕ) (o : Option ℕ)
      → RoundRobin (set_aside m s).table (some s) (skip_of m s) o
      → (from_process (set_aside m s) s ctx o).0.cur ≡ some n
      → Switches m ctx s n (from_process (set_aside m s) s ctx o)
  unfolding from_process to_kernel enter
  chosen-Switches n none f e = absurd (cc)
  chosen-Switches n (some k) f e =
      let same : k ≡ n = ground arith in
      let ok =
        picked_in (set_aside m s).table (some s) (skip_of m s) k (skip_in m ctx v s is_cur) f in
      subst (λ i. Switches m ctx s i (from_process (set_aside m s) s ctx (some k))) same
        (from_process-Switches k ok.0)

  -- What the switch from `s` is, and that it goes on to a process.
  dispatch-Switches :
      (n : ℕ)
      → (dispatch m ctx (some s)).0.cur ≡ some n
      → Switches m ctx s n (dispatch m ctx (some s))
  unfolding dispatch
  dispatch-Switches n e =
      chosen-Switches n next (pick_ready_lem (set_aside m s).table (some s) (skip_of m s)) e

  cur-from_process : (n : ℕ) → (from_process (set_aside m s) s ctx (some n)).0.cur ≡ some n
  unfolding from_process enter
  cur-from_process n = refl

  dispatch_progress :
      (j : ℕ)
      → j < max_proc
      → is_ready (proc m j).state ≡ true
      → (n : ℕ) × ((dispatch m ctx (some s)).0.cur ≡ some n)
        × (is_running (proc m s).state ≡ true → j ≢ s → n ≢ s)
  unfolding dispatch
  dispatch_progress j lt r =
      let c = chosen next j (pick_ready_lem (set_aside m s).table (some s) (skip_of m s)) lt r in
      (c.0, ap (λ o. (from_process (set_aside m s) s ctx o).0.cur) c.1 ∙ cur-from_process c.0, c.3)

-- From the kernel.
first_progress :
    (m : Machine) (ctx j : ℕ) (o : Option ℕ)
    → RoundRobin m.table none none o
    → j < max_proc
    → is_ready (proc m j).state ≡ true
    → (n : ℕ) × ((start_first m ctx true o).0.cur ≡ some n)
unfolding start_first enter
first_progress m ctx j none f lt r = absurd (ground (arith, f j))
first_progress m ctx j (some n) f lt r = (n, refl)

abbrev Progress : Machine → ℕ → ℕ → Option ℕ → Type 0
Progress m ctx j c =
    (n : ℕ) × ((dispatch m ctx c).0.cur ≡ some n)
    × ((s : ℕ) → c ≡ some s → is_running (proc m s).state ≡ true → j ≢ s → n ≢ s)

any-Progress :
    (m : Machine) (ctx j : ℕ) (c : Option ℕ)
    → IsSched m
    → m.cur ≡ c
    → j < max_proc
    → is_ready (proc m j).state ≡ true
    → (c ≡ none → m.sched_ready ≡ true)
    → Progress m ctx j c
unfolding dispatch from_kernel
any-Progress m ctx j none v e lt r may =
    let first =
      first_progress m ctx j (pick_ready m.table none none) (pick_ready_lem m.table none none) lt
        r in
    (
      first.0,
      ap (λ go. (start_first m ctx go (pick_ready m.table none none)).0.cur) (may refl) ∙ first.1,
      λ s e'. absurd (cc),
    )
any-Progress m ctx j (some s) v e lt r may =
    let d = dispatch_progress m ctx v s e j lt r in
    (
      d.0,
      d.1,
      λ s' e' run ne.
          let same : s ≡ s' = ground arith in
          subst (λ i. d.0 ≢ i) same
            (d.2 (subst (λ i. is_running (proc m i).state ≡ true) (sym same) run)
              (λ eq. ne (eq ∙ same))),
    )

-- `sched_reschedule` from process `s` to process `n`: with the wake-ups done, `s` has the frame saved
-- that was passed, counts the switch, and is ready if it was running; then `n` is running, and its
-- frame is returned (the one that was passed if `n` is `s`). No third process changes.
pub reschedule-Switches :
    (m : Machine) (ctx s n : ℕ)
    → IsSched m
    → m.cur ≡ some s
    → (reschedule m ctx).0.cur ≡ some n
    → Switches (wake_sleepers m) ctx s n (reschedule m ctx)
unfolding reschedule wake_sleepers
reschedule-Switches m ctx s n v e =
    subst
      (λ c.
        (dispatch (wake_sleepers m) ctx c).0.cur ≡ some n
        → Switches (wake_sleepers m) ctx s n (dispatch (wake_sleepers m) ctx c))
      (sym e) (dispatch-Switches (wake_sleepers m) ctx (wake_sleepers-IsSched m v) s e n)

woken-Progress :
    (m : Machine) (ctx j : ℕ)
    → IsSched m
    → j < max_proc
    → is_ready (wake m.ticks (proc m j)).state ≡ true
    → (m.cur ≡ none → m.sched_ready ≡ true)
    → Progress (wake_sleepers m) ctx j m.cur
unfolding wake_sleepers
woken-Progress m ctx j v lt r =
    any-Progress (wake_sleepers m) ctx j m.cur (wake_sleepers-IsSched m v) refl lt
      (ap (λ p. is_ready p.state) (proc-wake_sleepers m j) ∙ r)

-- While a process is ready, after the wake-ups, and a process is current or processes may run,
-- `sched_reschedule` runs one.
pub reschedule_progress :
    (m : Machine) (ctx j : ℕ)
    → IsSched m
    → j < max_proc
    → is_ready (wake m.ticks (proc m j)).state ≡ true
    → (m.cur ≡ none → m.sched_ready ≡ true)
    → (n : ℕ) × ((reschedule m ctx).0.cur ≡ some n)
unfolding reschedule wake_sleepers
reschedule_progress m ctx j v lt r may = let d = woken-Progress m ctx j v lt r may in (d.0, d.1)

-- A running process gives way to another one: where a second process is ready, after the wake-ups,
-- `sched_reschedule` runs a process other than the one that was running.
pub reschedule_rotates :
    (m : Machine) (ctx s j : ℕ)
    → IsSched m
    → m.cur ≡ some s
    → is_running (proc m s).state ≡ true
    → j < max_proc
    → j ≢ s
    → is_ready (wake m.ticks (proc m j)).state ≡ true
    → (n : ℕ) × ((reschedule m ctx).0.cur ≡ some n) × (n ≢ s)
unfolding reschedule wake_sleepers
reschedule_rotates m ctx s j v e run lt ne r =
    let d = woken-Progress m ctx j v lt r (λ none'. absurd (cc)) in
    (
      d.0,
      d.1,
      d.2 s e
          (ap (λ p. is_running p.state) (proc-wake_sleepers m s)
            ∙ wake-running m.ticks (proc m s)
            ∙ run)
          ne,
    )
