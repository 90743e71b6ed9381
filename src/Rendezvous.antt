-- ===== src/Rendezvous.antt =====
-- rendezvous/ and services/rendezvous/: where a worker finds the dispatcher.
pub mod Frame
pub mod RoundTrip
pub mod Messages
pub mod Server
pub mod Client
pub mod Answer
pub mod Accepting
pub mod Undisturbed
pub mod Totality
pub mod Relay
pub mod Reporting
pub mod Discovery
mod Examples
mod LoopExamples
