-- ===== src/Util/Text.antt =====
-- The routines of kernel/util.cpp on strings that end in a byte 0.
use cofeuos.Base.{ℕ, zero, suc, ◌+◌, ◌%◌, not, ◌&&◌, Option, none, some, ◌==◌, if◌then◌else◌}
use cofeuos.Util.{Memory, put}

-- The loops run on fuel; none means that it ran out.
unfoldable pub strlen_loop : ℕ → Memory → ℕ → ℕ → Option ℕ
strlen_loop zero mem s n = none
strlen_loop (suc k) mem s n =
    let rest = strlen_loop k mem s (n + 1) in if mem (s + n) == 0 then some n else rest

unfoldable pub strlen : ℕ → Memory → ℕ → Option ℕ
strlen fuel mem s = strlen_loop fuel mem s 0

-- The bytes whose difference is the result of `strcmp`.
unfoldable pub strcmp : ℕ → Memory → ℕ → ℕ → Option (ℕ × ℕ)
strcmp zero mem a b = none
strcmp (suc k) mem a b =
    let rest = strcmp k mem (a + 1) (b + 1) in
    if not (mem a == 0) && mem a == mem b then rest else some (mem a, mem b)

-- The loop of `strncmp`, with `n` after its decrement, and `strncmp`.
unfoldable pub strncmp_loop : ℕ → Memory → ℕ → ℕ → ℕ × ℕ
strncmp_loop zero mem a b = (mem a, mem b)
strncmp_loop (suc n) mem a b =
    let rest = strncmp_loop n mem (a + 1) (b + 1) in
    if not (mem a == 0) && mem a == mem b then rest else (mem a, mem b)

unfoldable pub strncmp : Memory → ℕ → ℕ → ℕ → ℕ × ℕ
strncmp mem a b zero = (0, 0)
strncmp mem a b (suc n) = strncmp_loop n mem a b

unfoldable pub strcpy : ℕ → Memory → ℕ → ℕ → Option Memory
strcpy zero mem d s = none
strcpy (suc k) mem d s =
    let mem' = put mem d (mem s) in
    let rest = strcpy k mem' (d + 1) (s + 1) in if mem s == 0 then some mem' else rest

-- The second loop of `strncpy`.
unfoldable pub zero_fill : ℕ → Memory → ℕ → Memory
zero_fill zero mem d = mem
zero_fill (suc n) mem d = zero_fill n (put mem d 0) (d + 1)

unfoldable pub strncpy : ℕ → Memory → ℕ → ℕ → Memory
strncpy zero mem d s = mem
strncpy (suc n) mem d s =
    let rest = strncpy n (put mem d (mem s)) (d + 1) (s + 1) in
    let zeros = zero_fill (suc n) mem d in if mem s == 0 then zeros else rest

-- The value is the address found, or 0.
unfoldable pub strchr : ℕ → Memory → ℕ → ℕ → Option ℕ
strchr zero mem s c = none
strchr (suc k) mem s c =
    let rest = strchr k mem (s + 1) c in
    if mem s == 0
    then some (if c % 256 == 0 then s else 0)
    else if mem s == c % 256
    then some s
    else rest

unfoldable pub strrchr_loop : ℕ → Memory → ℕ → ℕ → ℕ → Option ℕ
strrchr_loop zero mem s c last = none
strrchr_loop (suc k) mem s c last =
    let rest = strrchr_loop k mem (s + 1) c (if mem s == c % 256 then s else last) in
    if mem s == 0 then some (if c % 256 == 0 then s else last) else rest

unfoldable pub strrchr : ℕ → Memory → ℕ → ℕ → Option ℕ
strrchr fuel mem s c = strrchr_loop fuel mem s c 0
