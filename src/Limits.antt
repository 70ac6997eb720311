-- ===== src/Limits.antt =====
-- The way of a limit: from the rule that the global controller writes
-- (src/controller/core_control_application.cpp) through the message of its interface
-- (src/networking/local_interface.cpp) and the local controller
-- (src/controller/local_control_application.cpp) to the structure that a stage is sent
-- (src/networking/paio_interface.cpp).
pub mod Filled
pub mod Arrived
