-- ===== src/Tests.antt =====
-- Sample data for the theorems of the other modules.
mod Samples
mod Frames
mod Sessions
mod Texts
mod Systems
mod Clients
mod Servers
mod Browsers
mod Uploads
