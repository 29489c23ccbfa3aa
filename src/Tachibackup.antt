-- ===== src/Tachibackup.antt =====
-- The reader of the Android application's backup (internal/tachibackup).
pub mod Model
pub mod Wire
pub mod Messages
pub mod Metadata
pub mod Library
pub mod Document
pub mod Walk
pub mod Total
pub mod Codec
pub mod Entries
pub mod RoundTrip
pub mod Unknown
pub mod Matching
