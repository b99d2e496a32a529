-- ===== src/Sched/Ordered.antt =====
-- The invariant of kernel/sched.cpp between two calls, under which the current process runs.
use cofeuos.Base.{
  ℕ, ◌+◌, ◌/◌, ◌%◌, inl, inr, ◌≡◌, refl, sym, ap, ◌∙◌, subst, ◌≢◌, ◌⊎◌, Bool, true, false, Option,
  none, some, arith, ◌==◌, get_or, u32_mod, add64, Bool-cases,
}
use cofeuos.Sched.{Process, Machine, sleeping, zombie, is_running, is_empty, proc, put_proc, zeroed}
use cofeuos.Sched.Switch.{reschedule, set_rax, sys_exit, sys_sleep, kill_faulting, userpf_kill}
use cofeuos.Sched.Life.{wait, kill}
use cofeuos.Sched.Running.{Runs, Idle}
use cofeuos.Sched.Resched.{reschedule_lem}
use cofeuos.Sched.Table.{IsTable, alike-IsTable, put_same-IsTable}
use cofeuos.Sched.Kept.{reschedule-IsTable}
use cofeuos.Sched.Spares.{Spares, is_gone}
use cofeuos.Sched.Ends.{
  Reaped, Waited, Killed, wait_lem, kill_lem, cur-wait, cur-kill, wait-IsTable, kill-IsTable,
}

-- The table is in order, and the current process is the one in the running state.
pub record IsOrdered (m : Machine) : Type 0 where
  pub table : IsTable m
  pub current : (i : ℕ) → m.cur ≡ some i → is_running (proc m i).state ≡ true

pub alike-IsOrdered :
    (m m' : Machine) → m'.table ≡ m.table → m'.cur ≡ m.cur → IsOrdered m → IsOrdered m'
alike-IsOrdered m m' e c v = record {
  table = alike-IsTable m m' e c v.table;
  current = λ i e'.
      subst (λ t. is_running (get_or t i zeroed).state ≡ true) (sym e) (v.current i (sym c ∙ e'));
}

pub Spares-IsOrdered : (m m' : Machine) → IsOrdered m → Spares m m' → IsTable m' → IsOrdered m'
Spares-IsOrdered m m' v (c, s) t = record {
  table = t;
  current = λ i e. kept i (v.current i (sym c ∙ e)) (s i);
}
  where
    kept :
        (i : ℕ)
        → is_running (proc m i).state ≡ true
        → (is_gone (proc m i).state ≡ true) ⊎ (proc m' i ≡ proc m i)
        → is_running (proc m' i).state ≡ true
    kept i r (inl g) = absurd (ground arith)
    kept i r (inr e) = ap (λ p. is_running p.state) e ∙ r

pub reschedule-IsOrdered : (m : Machine) (ctx : ℕ) → IsTable m → IsOrdered (reschedule m ctx).0
reschedule-IsOrdered m ctx t = record {
  table = reschedule-IsTable m ctx t;
  current = λ i e. go i e (reschedule_lem m ctx t.sched).1;
}
  where
    go :
        (i : ℕ)
        → (reschedule m ctx).0.cur ≡ some i
        → Idle m (reschedule m ctx) ⊎ ((n : ℕ) × Runs n (reschedule m ctx))
        → is_running (proc (reschedule m ctx).0 i).state ≡ true
    go i e (inl (none', _)) = absurd (cc)
    go i e (inr (n, r)) =
        let same : some n ≡ some i = sym r.current ∙ e in
        let same' : n ≡ i = ground arith in
        subst (λ k. is_running (proc (reschedule m ctx).0 k).state ≡ true) same'
          (ap is_running r.state)

-- The entry that was emptied was not the current process's.
Reaped-IsOrdered :
    (m m' : Machine) (i : ℕ)
    → IsOrdered m
    → m'.cur ≡ m.cur
    → m.cur ≢ some i
    → Reaped m i m'
    → IsTable m'
    → IsOrdered m'
Reaped-IsOrdered m m' i v c other r t = record {
  table = t;
  current = λ j e.
      let e' : m.cur ≡ some j = sym c ∙ e in
      ap (λ p. is_running p.state) (r.others j (λ same. other (e' ∙ ap some same)))
      ∙ v.current j e';
}

pub wait-IsOrdered : (m : Machine) (want : ℕ) → IsOrdered m → IsOrdered (wait m want).0
wait-IsOrdered m want v =
    go (wait m want) (wait_lem m want) (cur-wait m want) (wait-IsTable m want v.table)
  where
    go : (r : Machine × Option ℕ) → Waited m want r → r.0.cur ≡ m.cur → IsTable r.0 → IsOrdered r.0
    go (m', none) (e, _) c t = subst IsOrdered (sym e) v
    go (m', some code) (i, hit, _, _, r) c t =
        Reaped-IsOrdered m m' i v c (λ e. ground (arith, v.current i e, ap is_running hit.0)) r t

pub kill-IsOrdered : (m : Machine) (pid : ℕ) → IsOrdered m → IsOrdered (kill m pid).0
kill-IsOrdered m pid v =
    go (kill m pid) (kill_lem m pid) (cur-kill m pid) (kill-IsTable m pid v.table)
  where
    go : (r : Machine × Bool) → Killed m pid r → r.0.cur ≡ m.cur → IsTable r.0 → IsOrdered r.0
    go (m', false) (e, _) c t = subst IsOrdered (sym e) v
    go (m', true) (i, hit, other, r) c t = Reaped-IsOrdered m m' i v c other r t

-- The current process ends or falls asleep.
leaves-IsTable :
    (m : Machine) (c : ℕ) (p : Process)
    → IsOrdered m
    → m.cur ≡ some c
    → p.pid ≡ (proc m c).pid
    → is_empty p.state ≡ false
    → is_running p.state ≡ false
    → IsTable (put_proc m c p)
leaves-IsTable m c p v e same there idle =
    put_same-IsTable m c p v.table (v.table.sched.cur_in c e) idle same
      (ground (arith, v.current c e))

pub sys_exit-IsOrdered :
    (m : Machine) (c a0 ctx : ℕ) → IsOrdered m → m.cur ≡ some c → IsOrdered (sys_exit m c a0 ctx).0
unfolding sys_exit
sys_exit-IsOrdered m c a0 ctx v e =
    let ended = record (proc m c) { exitcode = a0 % u32_mod; state = zombie } in
    reschedule-IsOrdered (set_rax (put_proc m c ended) ctx 0) ctx
      (alike-IsTable (put_proc m c ended) _ refl refl (leaves-IsTable m c ended v e refl refl refl))

pub sys_sleep-IsOrdered :
    (m : Machine) (c a0 ctx : ℕ) → IsOrdered m → m.cur ≡ some c → IsOrdered (sys_sleep m c a0 ctx).0
unfolding sys_sleep
sys_sleep-IsOrdered m c a0 ctx v e =
    let asleep = record (proc m c) { state = sleeping; waketick = add64 m.ticks (a0 / 10) } in
    let done = reschedule-IsOrdered (set_rax (put_proc m c asleep) ctx 0) ctx (
      alike-IsTable (put_proc m c asleep) _ refl refl
        (leaves-IsTable m c asleep v e refl refl refl)) in
    elim (Bool-cases (a0 == 0)) [
      | inl z ↦ rw z (alike-IsOrdered m _ refl refl v)
      | inr z ↦ rw z done
    ]

pub userpf_kill-IsOrdered : (m : Machine) (ctx : ℕ) → IsOrdered m → IsOrdered (userpf_kill m ctx).0
unfolding userpf_kill kill_faulting
userpf_kill-IsOrdered m ctx v = go m.cur refl
  where
    go : (o : Option ℕ) → m.cur ≡ o → IsOrdered (kill_faulting m ctx o).0
    go none e = v
    go (some c) e =
        let ended = record (proc m c) { exitcode = 128 + 14; state = zombie } in
        reschedule-IsOrdered (put_proc m c ended) ctx (leaves-IsTable m c ended v e refl refl refl)
