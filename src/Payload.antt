-- ===== src/Payload.antt =====
-- The payload of a frame, written and read field by field.
pub mod Writer
pub mod Reader
pub mod RoundTrip
