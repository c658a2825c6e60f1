-- ===== src/Nfc.antt =====
-- components/stark_nfc: the NFC reader.
pub mod Frame
pub mod Poll
pub mod Idle
mod Tests
