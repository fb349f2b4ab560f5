-- ===== src/Examples.antt =====
-- Concrete runs of the model of raptorq/, over a small stand-in for the crate.
pub mod Toy
pub mod Codec
mod Wire
mod Receiver
mod Sender
mod Streams
mod Channel
mod Delivery
mod Broadcast
mod Process
mod Pipeline
