-- ===== src/Lock.antt =====
-- core/os_kernel.c: the start of the scheduler and its lock.
use ahura_kernel.Prelude.{
  ◌+◌, ◌-◌, ◌%◌, ◌^◌, Bool, true, false, not, ◌&&◌, ◌||◌, ◌==◌, if◌then◌else◌,
}
use ahura_kernel.Task.State.{Kernel}

-- os_start, up to the first task
unfoldable pub start_scheduler : Kernel → Kernel
start_scheduler k = record k { is_running = true }

-- os_kernel_lock
unfoldable pub lock : Kernel → Kernel
lock k = if k.in_isr then k else record k { lock_count = (k.lock_count + 1) % 2 ^ 32 }

-- The last part of os_kernel_unlock: a switch that was deferred is requested.
unfoldable pub take_pending : Kernel → Kernel
take_pending k =
    let k' = record k { switch_pending = false } in
    if k.switch_pending && k.is_running then record k' { switch_requested = true } else k'

-- os_kernel_unlock, without assertions
unfoldable pub unlock : Kernel → Kernel
unlock k =
    if k.in_isr || k.lock_count == 0
    then k
    else let k' = record k { lock_count = k.lock_count - 1 } in
      if k'.lock_count == 0 then take_pending k' else k'

-- os_kernel_is_locked
unfoldable pub is_locked : Kernel → Bool
is_locked k = not (k.lock_count == 0)

-- os_kernel_is_running
unfoldable pub kernel_is_running : Kernel → Bool
kernel_is_running k = k.is_running
