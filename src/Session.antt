-- ===== src/Session.antt =====
-- The sessions of the controllers: the queues that they share (Queue), and what the thread of each
-- class of session does of a rule (src/session).
pub mod Queue
pub mod Open
pub mod DataPlane
pub mod LocalController
pub mod Handshake
