-- ===== src/Examples.antt =====
-- Tests of the definitions, and the theorems at concrete inputs.
mod Libraries
mod Messages
mod Throttling
mod Sessions
mod Systems
mod Running
mod Settings
mod Control
mod Secure
