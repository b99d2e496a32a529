-- ===== src/Lib.antt =====
-- cofeuos, an x86-64 kernel in C++. This library models the kernel's own bookkeeping, and leaves
-- the devices out.
--
-- kernel/pmm.cpp hands out 4 KiB frames of physical memory from a bit map. kernel/memory.cpp
-- takes a run of these frames once as its arena and hands out blocks of bytes from it, by a free
-- list in address order. kernel/sched.cpp runs up to 32 processes in turn, takes their page
-- tables and stacks from the two, and serves their system calls.
--
-- - Base: Boolean tests on numbers, C arrays as lists, machine words with the wrap-around
--   written out.
-- - Bitmap: the bit maps, lists of bytes, with the operations `bits[i >> 3] & (1 << (i & 7))`
--   and its like (`test`, `mark`, `clear`). Laws and Count say what the bits and their number
--   are after an operation.
-- - Pmm: kernel/pmm.cpp. The record Pmm is its static variables; `range_mark`, `alloc_frame`,
--   `alloc_range`, `free_frame`, `free_range`, `init` are the functions of these names (with the
--   prefix pmm_). The memory map, the CMOS registers and the linker symbol that `pmm_init` reads
--   are the record Boot.
-- - Sched: kernel/sched.cpp. The record Process is a table entry, and the record Machine the
--   file's variables with the timer, the frame manager, the heap and the machine's memory. Space
--   has the page tables of a process (`vm_build`, `vm_free`), Switch `sched_reschedule`
--   (`reschedule`) and the system calls that end in it, Life what makes and ends processes
--   (`spawn`, `sys_fork`, `wait`, `kill`, `find_hole`). Start has `sched_init` (`init`). Pick,
--   Running, Resched, Turns and Kept are about the switch, Pid about PIDs, Window about
--   `uaddr_ok`, Frames about the frames that processes start from, Ends, Births, Spares, Enough,
--   Tables and Made about processes that come and go, and Table, Ordered and Steps about all
--   calls one after the other: the relation Step has a constructor for each of these calls
--   (loading a program is not among them), and Reachable the sequences of them. A pointer to a
--   process is the number of its entry.
-- - Heap: kernel/memory.cpp. The record Heap is its static variables, where the chain of `next`
--   pointers is the list of the block addresses that it goes through, and `size_at` the size
--   field at every address; `alloc_from`, `insert_keep_coalesced`, `kmalloc`, `kfree`,
--   `kmalloc_init` are the functions of these names. A client's writes into its own block are
--   not modelled.
--
-- - Util: kernel/util.cpp. `memset`, `memcpy`, `memmove`, `memcmp` and in Text the string
--   routines, on memory as a function from addresses to bytes; the result of a comparison is the
--   pair of bytes whose difference the code returns. Moves, Compare and Strings are about them.
-- - Keyboard: kernel/keyboard.cpp. The record Keyboard is its variables; `keyboard_irq` is `irq`
--   of the scan code, in the parts `release`, `press_extended` and `press`. Ring sees the array
--   as a queue.
-- - Rtc: kernel/rtc.cpp. `date_of` is `rtc_read` of what the registers give, `init_reg_b` the
--   value that `rtc_init` writes back, `timestamp` is `rtc_timestamp`. Days is about the
--   calendar.
-- - Fs: kernel/cofeufs.cpp. The record Fs is its variables and the disk, a function from sector
--   numbers to bytes; the records on the disk are read from and written to bytes (`inode_of`,
--   `inode_bytes` and their like). Space has the bit map and the blocks of an inode
--   (`block_alloc`, `inode_map_next`, `inode_block_at`, `inode_free_blocks`), Dirs the entries
--   of directories, Paths `resolve_from` and `split_last`, Files the contents of files
--   (`write_inode` is `write_file` from the release of the old blocks on), Calls and Removal the
--   functions that the rest of the kernel calls. Layout and Growth say where the blocks of a
--   file lie while it grows, Contents and RoundTrip what is stored and read, Release, Slots,
--   Tables and Undo what is given back, Writing is about `write_file` as a whole, Codec and
--   Flush about records and the bit map on the disk, Pieces about paths.
-- - Fmt: kernel/kprintf.cpp. `vformat` and its parts take any emitter; `emit_buf` is that of
--   `ksnprintf`, the others are those of the screen, the serial line and a capture. The data
--   type End says how a format ends: at its 0, behind it (`over_end`), or, where a number has
--   more digits than the 24 of the array (`overrun`), with what was put out before; what the
--   overrun does to the stack is not modelled. Digits is about numbers, Emitters and Bounded
--   about the cut to a buffer, Ends about where a format ends.
-- - Net: kernel/net.cpp. Numbers in network order and checksums (`ip_checksum`, `tcp_checksum`)
--   and the cache of neighbours (`arp_learn`) are in Net, the names of the name service in Dns,
--   its cache in Cache (`dns_cache_lookup`, `dns_cache_store`), `sack_apply` in Sack, and in Tcp
--   what else a connection does with bytes, options and times; the record Tcb has the fields
--   that these use. Checksum, Neighbours, Names, Recall, Marks, Reports and Stream are about
--   them.
-- - Timer: kernel/timer.cpp. The record Timer is its two counters.
--
-- Loops over a counter recur on the rounds that are left, with the source's bound as their
-- number, so no fuel is chosen there; the loops over a format and over a path have one round
-- more than it has bytes, and the removal of a directory goes as deep as the inode table has
-- entries; the loops of `memcpy` have the number of bytes that are left as fuel, which each
-- round lowers, and the string routines an argument, with the length of the string and one as
-- enough. Where the bound of such a loop is reached, a value of its own says so for paths,
-- formats, the names that `dns_read_name` reads and the options of `sack_apply` (an outer none,
-- or `spent`), and theorems exclude it; `dns_qname`, `dns_skip_name` and the other loops over
-- TCP options and segments have no such value. A number is a natural number, and each operation
-- that can wrap round has its `% 2 ^ w`. Log lines are left out.
--
-- Not modelled are the device drivers, the descriptor tables and the boot code, which only move
-- values to and from the machine, and so far the shell, of the network stack its sockets, its
-- state machine and its other protocols, and of the scheduler the ELF loader and the system
-- calls on files, sockets and the console.
pub mod Base
pub mod Bitmap
pub mod Pmm
pub mod Heap
pub mod Sched
pub mod Util
pub mod Keyboard
pub mod Rtc
pub mod Fs
pub mod Fmt
pub mod Timer
pub mod Net
