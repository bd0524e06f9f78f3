-- ===== src/Http.antt =====
-- utils/http-helper.h, and the request that HTTPSession::OutgoingSession::generate_request writes.
pub mod Message
pub mod Parse
pub mod Lines
pub mod Words
pub mod Clean
pub mod Loop
pub mod RoundTrip
pub mod Framing
pub mod Delimiter
pub mod Generated
pub mod Outgoing
pub mod Order
pub mod Forwarded
