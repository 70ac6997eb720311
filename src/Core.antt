-- ===== src/Core.antt =====
-- `CoreControlApplication`, the control application of the global controller
-- (src/controller/core_control_application.cpp, include/cheferd/controller/).
pub mod State
pub mod Enforce
pub mod Static
pub mod Vanilla
pub mod Stages
pub mod Statistics
pub mod Loop
pub mod Leftover
pub mod Connect
