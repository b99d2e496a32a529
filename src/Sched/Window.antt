-- ===== src/Sched/Window.antt =====
-- `uaddr_ok` of kernel/sched.cpp, the test that every system call makes of a user's buffer.
use cofeuos.Base.{ℕ, ◌+◌, ◌-◌, ◌≤◌, ◌<◌, ◌≡◌, true, arith, u64_mod}
use cofeuos.Sched.Space.{uaddr_ok, user_img_base, user_window_end}

-- A buffer that ends below 2^64 passes `uaddr_ok` only if every byte of it, at the address plus `i`,
-- lies in the user's window.
pub uaddr_ok-inside :
    (a n i : ℕ)
    → a + n < u64_mod
    → uaddr_ok a n ≡ true
    → i < n
    → (user_img_base ≤ a + i) × (a + i < user_window_end)
unfolding uaddr_ok
uaddr_ok-inside a n i room ok lt = ground arith

-- A buffer that runs over the end of the address space passes `uaddr_ok`, though its first byte lies
-- far behind the user's window, where it has at most 128 KiB and at least the last `k` bytes below 2^64.
pub uaddr_ok_wraps :
    (n k : ℕ)
    → 0 < k
    → k ≤ n
    → n ≤ 0x20000
    → (uaddr_ok (u64_mod - k) n ≡ true) × (user_window_end < u64_mod - k)
unfolding uaddr_ok
uaddr_ok_wraps n k pos le small = (ground arith, omega arith)
