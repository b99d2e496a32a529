-- ===== src/Sched/Spares.antt =====
-- What new and ended processes leave of the others in the table of kernel/sched.cpp.
use cofeuos.Base.{
  ℕ, ◌<◌, ◌≡◌, refl, sym, ap, ◌∙◌, subst, ◌⊎◌, inl, inr, Bool, true, ◌||◌, List, Option, none, some,
  arith, ◌==◌, get_or, length, Bool-cases,
}
use cofeuos.Sched.{
  Process, Machine, PState, empty, ready, is_empty, is_zombie, proc, put_proc, find_entry, zeroed,
}
use cofeuos.Sched.Space.{vm_new, user_img_base}
use cofeuos.Sched.Life.{
  reap_found, hole_or_zombie, find_hole, spawn_in, spawn, fork_in, fork_result, sys_fork, with_slot,
  give_up, copy_name, initial_context, fork_context, copy_stack, minus_one,
}
use cofeuos.Sched.Switch.{set_rax}
use cofeuos.Sched.Procs.{proc-put_proc, length-put_proc}
use cofeuos.Sched.Table.{IsTable}
use cofeuos.Sched.Alike.{
  Alike, chain, vm_new-Alike, initial_context-Alike, fork_context-Alike, copy_stack-Alike,
}
use cofeuos.Sched.Found.{FoundEntry, find_entry-FoundEntry}
use cofeuos.Sched.Ends.{reap-Reaped, cur-reap}
use cofeuos.Sched.Holes.{find_hole-Hole}
use cofeuos.Sched.Births.{Ready, kept_for, with_slot_ends}

abbrev pub is_gone : PState → Bool
is_gone s = is_empty s || is_zombie s

-- Each process but the ended ones is as before, and so is which one is current.
abbrev pub Spares : Machine → Machine → Type 0
Spares m m' =
    (m'.cur ≡ m.cur) × ((j : ℕ) → (is_gone (proc m j).state ≡ true) ⊎ (proc m' j ≡ proc m j))

Spares-trans : (a b c : Machine) → Spares a b → Spares b c → Spares a c
Spares-trans a b c (e, f) (e', f') = (e' ∙ e, λ j. go j (f j) (f' j))
  where
    go :
        (j : ℕ)
        → (is_gone (proc a j).state ≡ true) ⊎ (proc b j ≡ proc a j)
        → (is_gone (proc b j).state ≡ true) ⊎ (proc c j ≡ proc b j)
        → (is_gone (proc a j).state ≡ true) ⊎ (proc c j ≡ proc a j)
    go j (inl g) y = inl g
    go j (inr x) (inl g) = inl (subst (λ p. is_gone p.state ≡ true) x g)
    go j (inr x) (inr y) = inr (y ∙ x)

alike-Spares : (m m' : Machine) → Alike m m' → Spares m m'
alike-Spares m m' (e, c) = (c, λ j. inr (ap (λ t. get_or t j zeroed) e))

put-Spares :
    (m : Machine) (i : ℕ) (p : Process)
    → i < length m.table
    → is_gone (proc m i).state ≡ true
    → Spares m (put_proc m i p)
put-Spares m i p lt g = (
  refl,
  λ j. elim (Bool-cases (i == j)) [
    | inl same ↦
        let e : i ≡ j = ground arith in inl (subst (λ k. is_gone (proc m k).state ≡ true) e g)
    | inr other ↦ inr (proc-put_proc m i j p lt ∙ rw other refl)
  ],
)

find_hole-Spares : (m : Machine) → Spares m (find_hole m).0
unfolding find_hole
find_hole-Spares m = go (find_entry (λ p. is_empty p.state) m.table 0)
  where
    zombies :
        (o : Option ℕ) → FoundEntry (λ p. is_zombie p.state) m.table o → Spares m (reap_found m o).0
    zombies none f = alike-Spares m m (refl, refl)
    zombies (some i) (lt, hit, _) = (
      cur-reap m i,
      λ j. elim (Bool-cases (i == j)) [
        | inl same ↦
            let e : i ≡ j = ground arith in
            inl (subst (λ k. is_gone (proc m k).state ≡ true) e (ground arith))
        | inr other ↦ inr ((reap-Reaped m i lt).others j (ground arith))
      ],
    )

    go : (o : Option ℕ) → Spares m (hole_or_zombie m o).0
    go (some i) = alike-Spares m m (refl, refl)
    go none =
        zombies (find_entry (λ p. is_zombie p.state) m.table 0)
          (find_entry-FoundEntry (λ p. is_zombie p.state) m.table)

-- A second write to the entry that was a hole, with changes in between that are not to the table.
born-Spares :
    (m mid : Machine) (i pid : ℕ) (fresh p : Process)
    → Ready m i pid
    → is_empty fresh.state ≡ true
    → Alike (put_proc m i fresh) mid
    → Spares m (put_proc mid i p)
born-Spares m mid i pid fresh p r hollow (et, ec) =
    let lt : i < length m.table = omega (arith, r.inside, r.table.sched.full) in
    let m0 = put_proc m i fresh in
    let lt0 : i < length m0.table = omega (arith, length-put_proc m i fresh) in
    let lt' : i < length mid.table = subst (λ t. i < length t) (sym et) lt0 in
    let first = put-Spares m i fresh lt (ground (arith, r.hole)) in
    let mine : is_empty (proc mid i).state ≡ true =
      ap (λ t. is_empty (get_or t i zeroed).state) et
      ∙ ap (λ p. is_empty p.state) (proc-put_proc m i i fresh lt)
      ∙ ground arith in
    let second = put-Spares mid i p lt' (ground arith) in
    Spares-trans m m0 (put_proc mid i p) first
      (Spares-trans m0 mid (put_proc mid i p) (alike-Spares m0 mid (et, ec)) second)

spawn_in-Spares :
    (name : List ℕ) (m : Machine) (i k pid : ℕ)
    → Ready m i pid
    → Spares m (spawn_in name m i k pid).0
unfolding spawn_in
spawn_in-Spares name m i k pid r =
    let fresh = record zeroed { pid = pid; kstack = k; name = copy_name name } in
    let m0 = put_proc m i fresh in
    let m1 = (vm_new m0 fresh).0 in
    let p1 = (vm_new m0 fresh).1 in
    let m2 = (initial_context m1 k user_img_base).0 in
    let ctx = (initial_context m1 k user_img_base).1 in
    let new = vm_new-Alike m0 fresh in
    let gone = record p1 { state = empty; pid = 0 } in
    let failed =
      Spares-trans m (put_proc m1 i gone) (give_up m1 i p1)
        (born-Spares m m1 i pid fresh gone r refl new)
        (alike-Spares (put_proc m1 i gone) (give_up m1 i p1) (refl, refl)) in
    let made =
      born-Spares m m2 i pid fresh (record p1 { start_tick = m.ticks; ctx = ctx; state = ready }) r
        refl (chain m0 m1 m2 new (initial_context-Alike m1 k user_img_base)) in
    elim (Bool-cases (p1.cr3 == 0)) [ inl e ↦ rw e failed | inr e ↦ rw e made ]

fork_in-Spares :
    (c pr : ℕ) (m : Machine) (i k pid : ℕ) → Ready m i pid → Spares m (fork_in c pr m i k pid).0
unfolding fork_in
fork_in-Spares c pr m i k pid r =
    let fresh = record zeroed { pid = pid; kstack = k; name = (proc m c).name } in
    let m0 = put_proc m i fresh in
    let m1 = (vm_new m0 fresh).0 in
    let p1 = (vm_new m0 fresh).1 in
    let m2 = copy_stack (proc m1 c).stk_pages p1.stk_pages m1 in
    let m3 = (fork_context m2 k pr).0 in
    let ctx = (fork_context m2 k pr).1 in
    let new = vm_new-Alike m0 fresh in
    let gone = record p1 { state = empty; pid = 0 } in
    let failed =
      Spares-trans m (put_proc m1 i gone) (give_up m1 i p1)
        (born-Spares m m1 i pid fresh gone r refl new)
        (alike-Spares (put_proc m1 i gone) (give_up m1 i p1) (refl, refl)) in
    let made =
      born-Spares m m3 i pid fresh (record p1 { ctx = ctx; state = ready }) r refl
        (chain m0 m1 m3 new (
          chain m1 m2 m3 (copy_stack-Alike (proc m1 c).stk_pages p1.stk_pages m1)
            (fork_context-Alike m2 k pr))) in
    elim (Bool-cases (p1.cr3 == 0)) [ inl e ↦ rw e failed | inr e ↦ rw e made ]

with_slot-Spares :
    {A : Type 0}
    → (m : Machine) (build : Machine → ℕ → ℕ → ℕ → Machine × Option A) → IsTable m
    → ((n : Machine) (i k pid : ℕ) → Ready n i pid → Spares n (build n i k pid).0)
    → Spares m (with_slot (find_hole m) build).0
with_slot-Spares m build t born =
    let r = find_hole m in
    let found = find_hole-Spares m in
    let kept =
      Spares-trans m r.0 (kept_for r.0) found (alike-Spares r.0 (kept_for r.0) (refl, refl)) in
    with_slot_ends (λ x. Spares m x.0) r build (find_hole-Hole m t) (λ e. found) (λ e. kept)
      (λ i k pid s.
        Spares-trans m (kept_for r.0) (build (kept_for r.0) i k pid).0 kept
          (born (kept_for r.0) i k pid s))

-- `sched_spawn`, whether it succeeds or not, changes no process but an ended one, whose entry may be
-- used, and not which process is current.
pub spawn-Spares : (m : Machine) (name : List ℕ) → IsTable m → Spares m (spawn m name).0
unfolding spawn
spawn-Spares m name t = with_slot-Spares m (spawn_in name) t (spawn_in-Spares name)

fork_result-Spares :
    (ctx : ℕ) (m : Machine) (o : Option (Option ℕ)) → Spares m (fork_result ctx (m, o))
fork_result-Spares ctx m none = alike-Spares m (fork_result ctx (m, none)) (refl, refl)
fork_result-Spares ctx m (some none) = alike-Spares m m (refl, refl)
fork_result-Spares ctx m (some (some pid)) =
    alike-Spares m (fork_result ctx (m, some (some pid))) (refl, refl)

-- SYS_FORK, whether it succeeds or not, changes no process but an ended one, whose entry may be used,
-- and not which process is current.
pub sys_fork-Spares : (m : Machine) (c ctx : ℕ) → IsTable m → Spares m (sys_fork m c ctx).0
unfolding sys_fork
sys_fork-Spares m c ctx t =
    let forked = with_slot (find_hole m) (fork_in c ctx) in
    let done =
      Spares-trans m forked.0 (fork_result ctx forked)
        (with_slot-Spares m (fork_in c ctx) t (fork_in-Spares c ctx))
        (fork_result-Spares ctx forked.0 forked.1) in
    elim (Bool-cases ((proc m c).cr3 == 0 || m.img_pages == 0)) [
      | inl e ↦ rw e (alike-Spares m (set_rax m ctx minus_one) (refl, refl))
      | inr e ↦ rw e done
    ]
