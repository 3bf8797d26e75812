-- ===== src/Drivers.antt =====
-- library/drivers: the functions of the drivers that the model's blocks call.
pub mod Arguments
pub mod Sockets
pub mod Tasks
pub mod Measurements
pub mod Recording
pub mod Tests
