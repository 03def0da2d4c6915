-- ===== src/Sched.antt =====
-- The JOS kernel of sched/: environments, the scheduler and the system calls on environments.
pub mod Debug
pub mod Env
pub mod Memory
pub mod Envs
pub mod Returns
pub mod PageCalls
pub mod Strings
pub mod Syscalls
pub mod Console
pub mod Boot
pub mod Text
pub mod Scheduler
pub mod Trap
pub mod User
mod Tests
