-- ===== src/Obd.antt =====
-- The OBD-II layer (pkg/obd).
pub mod Types
pub mod Codes
pub mod Vin
pub mod Dtcs
pub mod Elm
pub mod Detect
pub mod Pids
pub mod Usb
pub mod Scan
pub mod Mock
