-- ===== src/Zaproll.antt =====
-- The rolling log file of zaproll/: its configuration, its write buffer, the backups and the file.
pub mod BufIo
pub mod Config
pub mod Backup
pub mod Rotation
