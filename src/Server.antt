-- ===== src/Server.antt =====
-- server.h and server.cpp.
pub mod Registry
pub mod Shutdown
pub mod Schedule
pub mod Handshake
pub mod Listener
pub mod Tls
pub mod TlsSetup
pub mod Limiter
pub mod Intake
pub mod Loop
