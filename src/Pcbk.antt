-- ===== src/Pcbk.antt =====
-- The PCBK backup format: packages/pcbk-core/src.
pub mod Constants
pub mod Value
pub mod Preamble
pub mod Cbor
pub mod RecordHeader
pub mod Subtle
pub mod Record
pub mod ClearHeader
pub mod Manifest
