-- ===== src/Task/Tick.antt =====
-- core/os_task.c: the delay list under the tick.
pub mod Sleepers
pub mod Timeout
use ahura_kernel.Prelude.{ℕ, ◌-◌, ◌^◌, List, [], ◌∷◌, ltb, ◌==◌, if◌then◌else◌}
use ahura_kernel.Task.State.{Kernel, Task, set_tcb}
use ahura_kernel.Task.Sched.{unlink, make_ready}

-- What os_task_tick_update does with one sleeper.
unfoldable pub tick_task : ℕ → Task → Kernel → Kernel
tick_task elapsed_ticks t k =
    let c = k.tcb t in
    if ltb elapsed_ticks c.delay_ticks
    then set_tcb k t (record c { delay_ticks = c.delay_ticks - elapsed_ticks })
    else make_ready t (unlink t (set_tcb k t (record c { delay_ticks = 0 })))

-- The walk of os_task_tick_update. A node's successor is saved before the node may leave the list,
-- and nothing else leaves it: the walk visits the sleepers of the list as it began.
unfoldable pub tick_from : ℕ → List Task → Kernel → Kernel
tick_from elapsed_ticks [] k = k
tick_from elapsed_ticks (t ∷ ts) k = tick_from elapsed_ticks ts (tick_task elapsed_ticks t k)

-- os_task_tick_update
unfoldable pub tick_update : ℕ → Kernel → Kernel
tick_update elapsed_ticks k =
    if elapsed_ticks == 0 then k else tick_from elapsed_ticks k.delay_list k

-- The walk of os_task_next_delay_ticks_get.
unfoldable pub min_delay : Kernel → List Task → ℕ → ℕ
min_delay k [] minimum = minimum
min_delay k (t ∷ ts) minimum =
    min_delay k ts (if ltb (k.tcb t).delay_ticks minimum then (k.tcb t).delay_ticks else minimum)

-- os_task_next_delay_ticks_get
unfoldable pub next_delay_ticks_get : Kernel → ℕ
next_delay_ticks_get k = min_delay k k.delay_list (2 ^ 32 - 1)
