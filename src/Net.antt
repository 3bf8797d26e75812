-- ===== src/Net.antt =====
-- library/drivers/GT_DriverImplementationDetails.{hpp,cpp}: addresses and sockets over an oracle for
-- the system's calls.
pub mod Addresses
pub mod Sockets
pub mod Text
pub mod Wire
pub mod Descriptors
