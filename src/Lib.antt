-- ===== src/Lib.antt =====
-- A model of the Ahura kernel, a small real-time operating system for ARM Cortex-M, and what makes
-- it correct.
--
-- The program. core/os_task.c holds the scheduler: a table of task control blocks, a ready list for
-- each of 32 levels with a bitmap of those that are not empty, a delay list, and one waiter list in
-- each kernel object. The objects (core/os_semaphore.c, os_mutex.c, os_event.c, os_queue.c) and
-- core/os_notify.c block and wake tasks through it, os_kernel.c defers its switches, and the PendSV
-- handler of arch/arm/common/os_arch_port_v7m.c swaps contexts by calling back into it.
--
-- The files. Each C file is one module, each C function one definition with its name, less the
-- prefix os_, os_task_ or os_internal_.
--   Task        core/os_task.c: State (the data), Sched (lists, switch requests, priorities), Wake,
--               Wait (how a task blocks), Switch (PendSV), Control (start, pause, delete, priority),
--               Tick, Create, Inherit (priority inheritance). The modules below them hold their
--               theorems; Task.Inv is the invariant and Task.Inv.* show that every part keeps it;
--               Task.Step is every sequence of calls, interrupts and switches.
--   Sync        the loop of the blocking calls: a round, which returns or blocks, and what happens
--               when the caller runs again.
--   Semaphore, Mutex, Event, Queue, Notify    core/os_semaphore.c and so on; Queue.Dynamic is the
--               queue whose buffer comes from the heap.
--   Timer       core/os_timer.c: the registry as slots, the timer objects as a store.
--   Lock        core/os_kernel.c: the start of the scheduler and its lock.
--   Linked      core/os_list.c: the intrusive list, on a store of nodes and list heads.
--   Mem         core/os_mem.c: the heap. Blocks is its abstract view, a row of vacant and used blocks;
--               Client is a user of it that frees what it holds.
--   Log         core/os_log.c: the ring, the lines, the log task's reads and the notice of lost lines.
--   Work        core/os_work.c: the registry; Bag is its abstract view, the calls in any order.
--   Clock       core/os_tick.c: the tick over the scheduler, the timers and the submitted calls, the
--               tickless idle and the CPU usage.
--   Critical    core/os_critical.c: Cores is every interleaving of the calls of any number of cores.
--   Atomic      core/os_atomic.c, over the port's operations that run in a critical section.
--   Delay       core/os_delay.c: the loop over the sleeps, and the busy wait over a cycle counter.
--   Demo, Tests a small system and the theorems at concrete inputs.
--
-- The state. `Kernel` is all variables of core/os_task.c as one value, passed on by every function; a
-- task is its index in os_task_table, and the idle task is the index behind the table. The two list
-- nodes of a task control block are its places in lists of tasks. A mutex is named by the address of
-- its waiter list. Time, priorities and counters are natural numbers, reduced modulo 2^32 where the
-- code may wrap. A call runs inside a critical section, so it is one step on a single core.
--
-- The loops. os_task_stack_select_next gets 33 rounds: the bitmap has 32 bits, each round clears one,
-- and the round after them finds 0. os_task_waiters_wake_all gets a round for each waiter and one
-- more. The search for a free task id gets two rounds more than there are tasks: 0 and the live ids
-- can refuse no more candidates. The search of the heap gets a round more than the heap has bytes, and
-- every block has a byte. The digits of a 32-bit number get ten rounds. The busy wait takes its number
-- of chunks as an argument, and the loop of a delay the list of its sleeps; their theorems say how
-- many are enough. The other loops follow a list.
--
-- Not modelled. The multi-core build, with affinity and cross-core interrupts, except for the
-- locks of core/os_critical.c; the contents of the stacks, their canary and watermark; assertions;
-- the exclusive loads and stores of the atomic operations; the formatting of the C library, whose
-- results are arguments; the callbacks and handlers that the timer and work tasks run; the
-- creation of the timer, work and log tasks; sleeping itself, for which the elapsed ticks are an
-- argument; BASEPRI. The configuration is the default one: one core, a tick of 1 ms, all objects
-- enabled. A size_t has 32 bits. The scheduler's lists are lists of tasks, and Linked stands
-- beside them.
pub mod Prelude
pub mod Task
pub mod Sync
pub mod Semaphore
pub mod Mutex
pub mod Event
pub mod Queue
pub mod Notify
pub mod Lock
pub mod Timer
pub mod Mem
pub mod Linked
pub mod Log
pub mod Work
pub mod Atomic
pub mod Clock
pub mod Critical
pub mod Delay
pub mod Demo
pub mod Tests
