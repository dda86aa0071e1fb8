-- ===== src/Obd/Usb.antt =====
-- The ELM327 driver over USB serial (pkg/obd/usb.go, USBAdapter).
pub mod Err
pub mod Line
pub mod State
pub mod Command
pub mod Init
pub mod Banner
pub mod Open
pub mod Readings
pub mod Live
pub mod Reach
pub mod Adapter
