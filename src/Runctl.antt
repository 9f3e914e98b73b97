-- ===== src/Runctl.antt =====
-- internal/runctl: the lifecycle of one measurement run.
pub mod Types
pub mod Window
pub mod Budget
pub mod Phase
pub mod Records
pub mod Controller
pub mod Release
pub mod Abort
pub mod Start
pub mod Finish
pub mod World
mod Examples
