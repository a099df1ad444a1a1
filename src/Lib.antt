-- ===== src/Lib.antt =====
-- A model of the core of a uCore kernel (RISC-V): the scheduler, the containers that it keeps its
-- processes in, the table of processes, the allocation of pages, the areas and the page tables of an
-- address space, and the functions on strings and numbers.
--
-- The program. kern/schedule/sched.c is a framework: `wakeup_proc` and `schedule` move processes in
-- and out of a run queue through a table of five operations (struct sched_class), which one of five
-- policies fills: round robin (kern/schedule/default_sched.c), first come first served
-- (default_sched_fifo.c), highest priority first (default_sched_hpf.c), shortest job first
-- (default_sched_sjf.c) and stride scheduling (default_sched_stride.c). The first two keep the ready
-- processes in a circular list (libs/list.h), the others in a skew heap (libs/skew_heap.h). The
-- clock calls `sched_class_proc_tick` for the running process. kern/mm/default_pmm.c keeps the free
-- pages as a sorted circular list of blocks. kern/mm/vmm.c keeps the areas of a process's address
-- space in such a list too; the system calls ask it which addresses the process may use, and copy
-- to and from them with the functions of libs/string.c. kern/mm/pmm.c maps addresses to pages in
-- tables of three levels, whose pages it takes from a manager (struct pmm_manager), which
-- default_pmm.c fills; `exit_mmap` and `dup_mmap` of vmm.c walk over the areas with it.
-- libs/printfmt.c prints.
--
-- The files.
--   Base        numbers, tests, lists of addresses, stores of fields, signed integers
--   Libs/Links  libs/list.h: the definitions; Ring (what the pointers stand for), Edit (adding,
--               deleting), Detach (a node on its own, and what the operations leave alone)
--   Libs/SkewHeap
--               libs/skew_heap.h: Defs; Tree (the trees that the nodes stand for), Members, Order,
--               Shape, Link, Merge, Heap and Remove (the operations build the trees)
--   Sched/State, Class, Framework
--               kern/process/proc.h, kern/schedule/sched.h and sched.c, `proc_run` of
--               kern/process/proc.c
--   Sched/RoundRobin, Sched/Fifo, Sched/Pool/{Hpf,Sjf,Stride}
--               the five policies; Sched/Pool/Defs holds what the last three write alike
--   Sched/Contract
--               the contract of a policy and the framework's functions over it
--   Sched/ListQueue, Sched/Pool
--               the policies keep the contract; what each of them chooses
--   Sched/Ticks, Sched/Start
--               the time slice, and the state that `sched_init` sets up
--   Process/Table, Links, Family
--               `set_links` and `remove_links` of kern/process/proc.c: the list of all processes, and
--               the children of each, as sequences
--   Process/Alloc
--               `alloc_proc`, `lab6_set_priority` and `do_yield` of kern/process/proc.c
--   Process/Pid `get_pid` of kern/process/proc.c: Defs; Scan (one round over the processes), Unique
--   Process/Hash, Libs/Hash
--               `hash_proc`, `unhash_proc` and `find_proc` of kern/process/proc.c, and libs/hash.c
--   Process/Kill
--               `do_kill` of kern/process/proc.c
--   Mm/FirstFit kern/mm/default_pmm.c: Defs; Blocks (what a sound free list is), Middle, Take, Alloc,
--               Merge, Free, Release, Init (the operations on sound lists), Last, Twice (what a block
--               that is freed behind all others does to the list)
--   Mm/Areas    kern/mm/vmm.c: Defs; Sorted (what a sound space is), Find, Cut, Insert, Destroy,
--               Check, Map, Copy (one operation each)
--   Mm/Tables   kern/mm/pmm.c, and `exit_mmap` and `dup_mmap` of vmm.c: Defs and Ranges (the
--               operations on one address and on ranges), Manager (what they rely on in the manager
--               of the pages), FirstFit, TakeBack (default_pmm.c keeps it), Tree (the tables as a
--               tree), Grow, Enter, GetPte, Leaf, Read, Remove, LetGo, Insert, GetPage, PgdirAlloc (single
--               addresses), Cover, Unmapped, Then, Unmap, ExitMmap, Cleared, Exit (ranges)
--   Libs/Strings
--               libs/string.c without strtol: Defs; Move (blocks of bytes), Text (strings)
--   Libs/Numerals
--               `printnum` of libs/printfmt.c, `strtol` of libs/string.c, libs/rand.c: Defs; Print,
--               Read, RoundTrip
--   Libs/Format the rest of libs/printfmt.c: Errors, Defs; Decimal ("%d")
--   Libs/Readline
--               kern/libs/readline.c: Defs; Line
--   */Tests     concrete states, and the theorems at work on them
--
-- Reading the model. A pointer is a number and NULL is 0. A store of one field is a function of the
-- address. The nodes embedded in a process (run_link, lab6_run_pool) have the address of the
-- process, so `le2proc` is the identity, and lists and heaps have stores of their own. A function
-- that can stop the kernel (an assertion, a division by zero) returns an Option. uint32_t and
-- unsigned int wrap around at 2 ^ 32; the int of a comparison is a signed integer.
-- `skew_heap_merge` runs on fuel. The policies give two rounds more than the queue has processes,
-- which is above the number of nodes that a merge walks over, and the results on the policies say
-- that the calls return.
--
-- The loop of `find_proc` runs on fuel; the results on it ask for more than the bucket is long.
-- `get_pid` begins its search anew 8192 times at most: each time it is closer to an unused pid.
-- What kmalloc answers is an argument of `alloc_proc`, `mm_create`, `vma_create` and `mm_map`.
-- A page descriptor goes by the number of its page; its list node and those of
-- areas and spaces have the addresses of what they are embedded in. The loops over the free list run
-- on nr_free + 2 rounds: each block has a page at least, and the loop that finds the place of a block
-- comes to that block once more. The loops over the areas run on map_count + 1 rounds. A memory of
-- bytes maps addresses to numbers; a loop that only a null byte ends runs on fuel, and the results
-- ask for more than the string is long. `printnum` and `vprintfmt` return the characters that they
-- put; the arguments of `vprintfmt` are the 64-bit patterns that va_arg takes. Its fuel bounds the
-- characters of the format and of each string, and the digits; the results name fuel that is enough,
-- or speak of what it prints.
-- map_count counts the areas: the int of C has the same value below 2 ^ 31, and beyond that its
-- overflow is undefined.
-- size_t, uintptr_t and the value of `strtol` wrap around at 2 ^ 64, nr_free and the size of a block
-- at 2 ^ 32.
--
-- For the page tables a descriptor and its page go by the number of the page, memory is words by page
-- and index, and a panic is `none`. `IsTree` says which tables are meant: every page has one place in
-- the tree at most, so a page that is mapped twice is outside of these results, as is a second
-- address space, and so is the last gigabyte, which entry 511 of the root alone maps for the kernel.
-- What is asked of the manager is the contract of Mm/Tables/Manager. First fit keeps it: what the
-- contract asks of a page to be taken back, that it is not one of the kernel's, which stay reserved,
-- and that a free page is above it, unless none is free, is what first fit needs, as its list breaks
-- when a block is freed behind all others. The results on what gives pages back ask that the last
-- page of memory is free, which is then above each of them.
-- The loops over a range run as many rounds as it has pages, tables or
-- directories; the results say that this is enough.
--
-- Not modelled. The rest of kern/process/proc.c (fork, exit, wait), the set-up of kern/mm/pmm.c
-- at boot, print_pgdir and the TLB, copy_string, vsnprintf (it writes each character before
-- `vprintfmt` reads on), kern/trap, kern/syscall, the drivers,
-- the checks that the kernel runs on itself at boot, and the user programs; kern/mm/kmalloc.c, which
-- is a copy of Linux's SLOB allocator; and in the functions that are here, the interrupt flag (they run with
-- interrupts off, so each is one step), the registers that a switch saves and loads, messages, and
-- the names of the policies. `runs` is kept as a bit pattern, and `time_slice`, which no code makes
-- negative, as a natural number. The variants without a skew heap and those of string functions in
-- assembler, which the preprocessor drops, are not modelled.
pub mod Base
pub mod Libs
pub mod Mm
pub mod Process
pub mod Sched
