-- ===== src/Mount.antt =====
-- src/native/linux: copies are mounted through loop devices and the device mapper.
pub mod Table
pub mod Kernel
pub mod Loop
pub mod Points
pub mod Device
pub mod Binary
pub mod Release
pub mod Keeps
pub mod Steady
pub mod Provider
mod Tests
