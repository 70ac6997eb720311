-- ===== src/Local.antt =====
-- The local controller (src/controller/local_control_application.cpp): what the global controller
-- asks of it, and the stages that it connects.
pub mod State
pub mod Handshake
pub mod Enforce
pub mod Statistics
pub mod Stages
pub mod Loop
pub mod Accept
pub mod Steps
