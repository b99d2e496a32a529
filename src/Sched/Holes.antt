-- ===== src/Sched/Holes.antt =====
-- `find_hole` of kernel/sched.cpp.
use cofeuos.Base.{ℕ, ◌<◌, ◌≡◌, subst, true, Option, none, some}
use cofeuos.Sched.{Machine, is_empty, is_zombie, max_proc, proc, find_entry}
use cofeuos.Sched.Life.{reap_found, hole_or_zombie, find_hole}
use cofeuos.Sched.Table.{IsTable}
use cofeuos.Sched.Found.{FoundEntry, find_entry-FoundEntry}
use cofeuos.Sched.Ends.{reap-Reaped, reap-IsTable}

-- An entry for a new process: empty, in a table that is in order still.
abbrev pub Hole : Machine × Option ℕ → Type 0
Hole (m, none) = IsTable m
Hole (m, some i) = IsTable m × (i < max_proc) × (is_empty (proc m i).state ≡ true)

pub find_hole-Hole : (m : Machine) → IsTable m → Hole (find_hole m)
unfolding find_hole
find_hole-Hole m t =
    go (find_entry (λ p. is_empty p.state) m.table 0)
      (find_entry-FoundEntry (λ p. is_empty p.state) m.table)
  where
    zombies : (o : Option ℕ) → FoundEntry (λ p. is_zombie p.state) m.table o → Hole (reap_found m o)
    zombies none f = t
    zombies (some i) (lt, _, _) =
        let lt' = subst (λ n. i < n) t.sched.full lt in
        (reap-IsTable m i t lt', lt', (reap-Reaped m i lt).gone)

    go : (o : Option ℕ) → FoundEntry (λ p. is_empty p.state) m.table o → Hole (hole_or_zombie m o)
    go (some i) (lt, hit, _) = (t, subst (λ n. i < n) t.sched.full lt, hit)
    go none f =
        zombies (find_entry (λ p. is_zombie p.state) m.table 0)
          (find_entry-FoundEntry (λ p. is_zombie p.state) m.table)
