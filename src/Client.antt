-- ===== src/Client.antt =====
-- The C++ client's side of the protocol, 01.Sources/CLIENT/CPP/src/net: `TcpSocket` and
-- `TransferClient`.
pub mod System
pub mod Actions
pub mod State
pub mod Controls
pub mod Socket
pub mod Texts
pub mod Frames
pub mod Handshake
pub mod Result
pub mod Progress
pub mod Cancel
pub mod Upload
pub mod Analysis
pub mod Connect
pub mod Run
pub mod Logic
pub mod Stable
pub mod Steady
pub mod Bounded
pub mod Outcome
pub mod Meets
pub mod Delivery
pub mod Payloads
pub mod Sending
pub mod Delivered
