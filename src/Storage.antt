-- ===== src/Storage.antt =====
-- components/stark_storage: the card, its mounting, its files and the log file.
pub mod Mount
pub mod Path
pub mod Files
pub mod Rotate
