-- ===== src/Module.antt =====
-- components/stark_module: the module bus, which follows the ID EEPROM of each slot, publishes
-- capabilities and lends out a slot's lines.
pub mod Desc
pub mod Slot
pub mod Core
pub mod Lease
