-- ===== src/Examples.antt =====
-- The theorems at concrete tables, documents and engines.
mod Queue
mod Backup
mod Downloads
mod Tracker
mod Migration
mod Jobs
mod Chapters
mod Sources
