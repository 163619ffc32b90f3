-- ===== src/Task.antt =====
-- core/os_task.c: the task table, the scheduler and the wait lists.
pub mod State
pub mod Sched
pub mod Wake
pub mod Wait
pub mod Switch
pub mod Control
pub mod Tick
pub mod Create
pub mod Inherit
pub mod Frame
pub mod Inv
pub mod Step
