-- ===== src/Recorder.antt =====
-- library/drivers/GT_DriverImplementationDetails.{hpp,cpp}: data recording. `Files` is the loop that
-- writes samples to data files, `Header` the bytes of a file header, `Thread` the recorder thread,
-- `Manager` the recorders of an application, `Index` the index file, and `Registry` the manager that
-- writes it at every registration.
pub mod Files
pub mod Header
pub mod Thread
pub mod Manager
pub mod Index
pub mod Decode
pub mod Names
pub mod Registry
pub mod Tests
