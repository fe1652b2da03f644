-- ===== src/Rtp.antt =====
-- internal/rtp: track descriptions, their place in the SDP, endpoints, and the stats workers.
pub mod Track
pub mod InfoRepository
pub mod Sdp
pub mod Endpoint
pub mod Stats
pub mod MediaWriter
pub mod MediaStream
pub mod Receiver
pub mod Examples
pub mod LiveStreamSender
mod LabelExamples
mod WriterExamples
