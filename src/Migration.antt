-- ===== src/Migration.antt =====
-- Matching of titles across sources (internal/migration). A text is the list of its runes.
pub mod Match
pub mod Ranking
pub mod Best
pub mod Clean
pub mod Brackets
pub mod Reading
