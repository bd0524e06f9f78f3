-- ===== src/Session.antt =====
-- http-session.h and http-session.cpp: one client connection. A session's coroutines run on its strand,
-- so they interleave only where one of them waits; what waits is an `Op` in `pending`.
pub mod ErrorCode
pub mod Defs
pub mod Handlers
pub mod Steps
pub mod Weights
pub mod Responses
pub mod Stopped
pub mod Forward
pub mod Secure
pub mod Race
pub mod Silence
pub mod Answers
pub mod Header
pub mod Buffer
pub mod Delivery
pub mod Termination
pub mod Origin
