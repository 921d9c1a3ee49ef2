-- ===== src/Codec.antt =====
-- The serialization of src/persistence.cpp: writers, readers, and the encoding of a snapshot.
pub mod Writer
pub mod Reader
pub mod Rules
pub mod Fields
pub mod Encode
pub mod Decode
pub mod Fits
pub mod RecordRoundTrip
pub mod RoundTrip
pub mod Acceptance
pub mod Totality
pub mod Canonical
