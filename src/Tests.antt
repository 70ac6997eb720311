-- ===== src/Tests.antt =====
-- Runs of the theorems on small inputs: two jobs at one local controller, a few rules of a rules
-- file, and texts.
mod Controller
mod Texts
mod Statistics
mod Sessions
mod Stages
mod Policies
mod Settings
mod Connections
