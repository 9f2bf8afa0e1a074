-- ===== src/Session.antt =====
-- TcpSession, 01.Sources/SERVER/src/net/TcpSession.h and TcpSession.cpp. The log is not modelled.
pub mod Host
pub mod State
pub mod Outbox
pub mod Upload
pub mod UploadEnd
pub mod Dispatch
pub mod Events
pub mod Frames
pub mod Loop
pub mod Invariant
pub mod Closing
pub mod Queue
pub mod Intake
pub mod Reading
pub mod Analysed
pub mod UploadFrames
pub mod Phases
pub mod Whole
pub mod Uploads
pub mod Reads
