-- ===== src/Worker.antt =====
-- worker/: the runtime that serves tasks, and the session that controls it.
pub mod Frames
pub mod Runtime
pub mod Connecting
pub mod Welcome
pub mod Serving
pub mod Batch
pub mod Progress
pub mod Session
pub mod Control
pub mod Discovery
pub mod Pacing
mod RuntimeExamples
mod SessionExamples
