-- ===== src/Transport.antt =====
-- transport/: sockets, the awaitable adapter over them, and the event loop.
pub mod Stream
pub mod Adapter
pub mod Socket
pub mod Delivery
pub mod Loop
pub mod Blocking
mod Examples
