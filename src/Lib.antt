-- ===== src/Lib.antt =====
-- Verification of parts of the nuvix kernel, a small UNIX-like kernel in C for RISC-V.
--
-- The parts of the program. At boot, mm/memblock.c records the physical ranges that are in use and
-- hands out early pages from the gaps; mm/buddy.c then takes what is not reserved. lib/string.c
-- copies and compares bytes for every part, and lib/vsprintf.c prints its messages.
-- include/nuvix/kfifo.h is the byte queue of the terminal driver. include/nuvix/bitmap.h is the
-- base of the tables that hand out small numbers, among them the descriptor table of
-- fs/vfs/fdtable.c, which owns one reference of an open file for each slot
-- (include/nuvix/refcount.h, fs/vfs/file.c). kernel/signal.c sends signals to tasks and takes them
-- on the way back to user mode; it wakes sleeping tasks through the run queues of kernel/sched.c,
-- whose quanta follow the clock of kernel/tick.c. kernel/pid.c gives tasks their numbers and links
-- them to groups and sessions. fs/pipe.c joins a reading and a writing file by a ring of bytes.
-- kernel/wait.c is the queue of the tasks that sleep until a condition holds, under the mutexes of
-- kernel/mutex.c and the completions of kernel/completion.c. lib/rbtree.c is the ordered tree in
-- which kernel/timer.c keeps the timers of a processor and mm/vma.c the areas of an address space,
-- for the calls of mm/mmap.c. fs/ext2/bmap.c finds the blocks of a file.
--
-- Which file models which part:
--
--   Memory            lib/string.c, over a byte memory (`Memory`, a function from addresses)
--   Bitmap            include/nuvix/bitmap.h
--   Kfifo             include/nuvix/kfifo.h
--   Memblock          mm/memblock.c: `memblock_reserve` is `Memblock.reserve`, `early_alloc` keeps its
--                     name, with `place_at` for a round of its loop
--   Fdtable           fs/vfs/fdtable.c: `fd_alloc_from` is `alloc_from`, `fd_close` is `close`, and so on;
--                     the system calls keep their names
--   Fdtable.Refs      include/nuvix/refcount.h, and `fget` and `fput` of fs/vfs/file.c
--   Signal            kernel/signal.c: the data and `send_signal`, with the state changes of `wake_task` of
--                     kernel/sched.c
--   Signal.Receive    kernel/signal.c: `get_signal`, `signal_delivered` and `signal_clone`, with `sched_stop`;
--                     `run_rounds` has the rounds of `get_signal` between two sleeps of the task, and
--                     `clone_signals` is the copy to the child in `sys_clone` of kernel/task.c
--   Signal.Syscall    the system calls of kernel/signal.c on the caller's own signals
--   Pipe              fs/pipe.c: `pipe_read` and `pipe_write`, with `drain` and `write_locked` for their
--                     loops, and `pipe_release`
--   Kill              the calls of kernel/signal.c that signal other tasks, and the broadcasts of
--                     kernel/pid.c over given lookups
--   Buddy             mm/buddy.c, with `take_block` for the search of `alloc_pages` and
--                     `release_gaps` for the loop of `buddy_init`
--   Rbtree            lib/rbtree.c: the nodes, and `rb_insert_color` after `rb_link_node` as `insert_at`
--   Rbtree.Erase      lib/rbtree.c: `rb_erase`, with `mend` and `turn` for a round of its repair
--   Rbtree.Walk       lib/rbtree.c: `rb_first`, `rb_last`, `rb_next` and `rb_prev`
--   Wait              kernel/wait.c and the macro `__wait_event` (`event_round` is a round of its loop)
--   Mutex             kernel/mutex.c: `lock_round` is a round of the loop of `mutex_lock_state`
--   Completion        kernel/completion.c: `wait_round` and `until_round` are rounds of its two loops
--   Vma               mm/vma.c: the searches, `vma_insert` and `vma_remove`, on the tree of Rbtree
--   Vma.Range         mm/vma.c: `vma_split`, `split_range`, `unmap_range` and `protect_range`
--   Mmap              mm/mmap.c: `map_fixed` and `map_anywhere` are the two halves of `sys_mmap`, `gap_below`
--                     is the loop of `find_unmapped`
--   Tick              kernel/tick.c: the conversions in Tick.Convert, the periodic event in Tick.Period
--   Sched             kernel/sched.c: the run queue; Sched.Run has what the current task does, with
--                     `prepare_switch` and `finish_switch` for the two halves of `sched_switch`, and
--                     Sched.Select the choice of a processor
--   Pid               kernel/pid.c: the identifiers and their allocation; Pid.Link has the links of tasks,
--                     and Pid.Session the calls on groups and sessions (`may_join` has the
--                     tests of `sys_setpgid`, `join` is its end)
--   Format            lib/vsprintf.c: `format` is the loop of `vsprintf`, `digits_from` the first of `number`
--   Ext2              fs/ext2/bmap.c: `ext2_block_to_path` is `block_to_path`, `ext2_bmap` is `bmap`
--   Timer             kernel/timer.c: `timer_start`, `timer_cancel`, and a round of `timer_tick` in two parts
--                     around the call of the timer's function
--   Errno             include/nuvix/errno.h
--   Prelude           shared names, Boolean tests, lists, powers of two and machine arithmetic
--
-- A module's children hold its proofs; those called Tests hold runs and the theorems at concrete
-- inputs.
--
-- How the code is modelled. Numbers are natural numbers; machine arithmetic writes out its wrap
-- (`Prelude.Pow`). A word of a bitmap and a `sigset_t` is the function that gives its bits, so the
-- bitwise operators are pointwise. A region under a lock is one step. An array with a length is a
-- list. A tree node with a pointer to its parent is the tree below it and the way up, a list of
-- frames. A task is a number, and a wait queue has the states of all tasks. Runs of several tasks
-- are step relations: each step is a region under one lock, or a change of a task's state from
-- outside. A failed `Assert` halts the kernel: the result `none` of the type `Option`; those on
-- lock owners, on the tree nodes that mm/vma.c inserts and removes, and those of
-- CONFIG_DEBUG_CONTEXT, on interrupts and the preemption count, are left out, and counts are as
-- without CONFIG_DEBUG_REFCOUNT. A task that sleeps in `get_signal` goes on with what the others
-- have made of it, a list of functions. Error numbers are the results `err`. User memory is a
-- parameter: what `copy_from_user` gives and whether `copy_to_user` works are arguments, and so is
-- whether an allocation finds room.
--
-- Bounds and fuel. The loops of `memblock_reserve` and `early_alloc` run over lists. The loops of
-- bitmap.h take the number of bits that are left. A loop to a terminating zero byte takes fuel,
-- and the theorems state how much is enough. `get_signal` takes one unit of fuel for each round
-- between two sleeps of the task; a round that goes on has dropped one of 31 signals, so 32 rounds
-- are enough. The loops of a pipe move a byte in each round or take one of the given wake-ups. The
-- loop of `unmap_range` removes an area in each round, so that one unit of fuel more than there
-- are areas is enough; the loop of `protect_range` takes one for each area and one more, and so
-- does the loop of `find_unmapped`. The digits of a number have the 24 places of the source, of
-- which 64 bits need at most 20 in base 10. The loop of `select_cpu` runs over the processors.
--
-- What is not modelled. Spin locks, memory order and interrupts; the path that `fput` drops with a
-- file; the signal frame on the user stack. Kill takes the lookups of kernel/pid.c as arguments.
-- The counts of the identifiers are kept, but that they reach zero only when no task is left is
-- not proved, so a run of Pid gives out numbers that are not in the table. `sched_stop` runs right
-- after the round that chose to stop, with no SIGCONT in between. The creation of a pipe is
-- missing. The page tables and the references that an area holds on its file are left out, and so
-- are the clock calls of kernel/timer.c. The run queue does not switch registers or page tables,
-- and wakes other processors by a result. Of the kernel's other parts (the rest of the file
-- systems, drivers) nothing is modelled here yet; lib/fdt and scripts/kconfig are copies of other
-- projects.
pub mod Prelude
pub mod Errno
pub mod Memory
pub mod Bitmap
pub mod Kfifo
pub mod Memblock
pub mod Fdtable
pub mod Signal
pub mod Pipe
pub mod Buddy
pub mod Kill
pub mod Rbtree
pub mod Wait
pub mod Mutex
pub mod Completion
pub mod Vma
pub mod Mmap
pub mod Timer
pub mod Tick
pub mod Sched
pub mod Pid
pub mod Format
pub mod Ext2
