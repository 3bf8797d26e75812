-- ===== src/Lib.antt =====
-- The real-time application that runs a Simulink model as periodic tasks, and the drivers that the
-- model's blocks call for recording data and for network sockets.
--
-- How the parts interact. `App` is the run of the process: it opens the application socket,
-- initializes the model, starts the scheduler, waits for termination and undoes this in order. The
-- scheduler starts a worker thread for every task of the model and the master thread, which waits
-- for the ticks of the periodic timer and notifies every task at each. A task counts its ticks,
-- releases its job or counts an overload. The step functions of the model call the drivers: the data
-- recorder buffers samples that its own thread writes to numbered files, the UDP service sends, receives and
-- follows multicast groups while a management thread binds the sockets, and the TCP client service
-- sends and receives while a management thread connects it to the commanded server.
--
-- The files, and the code that each is about (paths from the repository's root):
--   App.antt         core/code/GenericTarget/GT_GenericTarget.cpp and GT_AppSocket.cpp: `run`,
--                    `initialize`, `terminate`, `open_app_socket`, `close_app_socket` are the
--                    functions of those names; the actions are the calls of the other parts. App.Termination
--                    is the semaphore of Run with the calls of ShouldTerminate as a step relation,
--                    App.Signals is SetSignalHandlers with the two handlers.
--   Scheduler.antt   core/code/GenericTarget/GT_BaseRateScheduler.cpp: `start_scheduler` and
--                    `stop_scheduler` are Start and Stop; Scheduler.Master is MasterThread with the timer.
--   Timer.antt       core/code/GenericTarget/GT_PeriodicTimer.cpp: `start_timer`, `cancel_timer`,
--                    `stop_timer` and `wait_for_tick`.
--   Task.antt        core/code/GenericTarget/GT_PeriodicTask.cpp: `start`, `stop` and `notify` (whose
--                    two halves are `count_down` and `accept`). Task.System has the semaphore, the
--                    worker thread and the owner as a step relation.
--   Recorder.antt    library/drivers/GT_DriverImplementationDetails.{hpp,cpp}, the data recorders.
--                    Files is WriteBufferToDataFiles of both kinds, Header is WriteHeader with the
--                    reader packages/+GT/DecodeDataFiles.m, Thread is Write, ThreadDataRecorder and
--                    Stop as a step relation, Manager is DataRecorderManager, Index is WriteIndexFile
--                    with the reader packages/+GT/DecodeIndexFile.m, Decode is
--                    packages/+GT/DecodeDataFiles.m on the files that the thread has written (its
--                    ConvertHeader is Header.Convert),
--                    Names the names of the files and of their directory, and Registry the
--                    Add functions of the manager with GetOSInfo and the index file.
--   Event.antt       the same file: Event, its semaphore and the calls of its threads as a step
--                    relation; and Event.Latch the latch that it is.
--   Net.antt         the same file: Address, the sockets over an oracle for the system's calls, the
--                    texts of addresses, and Net.Wire the addresses that the sockets pass to the
--                    system and take from it.
--   Udp.antt         the same file: UDPServiceConfiguration and UDPService; Udp.Groups is the
--                    handling of multicast groups, Udp.Manager is UDPServiceManager, and Udp.Thread its
--                    ManagementThread as a step relation with the calls of the manager.
--   Tcp.antt         the same file: TCPClientServiceConfiguration and TCPClientService. Tcp.Thread is
--                    Create, Destroy and ManagementThread as a step relation with the calls of the
--                    other threads, Tcp.Manager is TCPClientServiceManager.
--   Services.antt    the same file: the services of a manager and their ids; Services.Text is the
--                    texts of their configurations.
--   Clock.antt       core/code/GenericTarget/GT_AppStartTimepoint.{hpp,cpp}, the steps of
--                    library/drivers/GT_DriverUTCTime.cpp and GT_DriverLocalTime.cpp, and the time
--                    that names the directory of the recorders.
--   Drivers.antt     library/drivers/GT_Driver*.cpp, the functions that the blocks call: Sockets is
--                    GT_DriverUDPSocket.cpp and GT_DriverTCPClientSocket.cpp, Recording is
--                    GT_DriverDataRecorder.cpp, Arguments is GT_DriverApplicationArguments.cpp, Tasks
--                    is the drivers of the overloads and of the stop of the execution, and
--                    Measurements those of the times and the thermal zones.
--   Base.antt        the names and lemmas that the others share.
--
-- The state of a component is a record of its members; an operation takes the record and returns it
-- with the results. What the system answers is a parameter: a record of answers, or a function of
-- the calls made so far. Numbers are natural numbers with the wrap-around of the C++ type written
-- out where a counter can reach it; int32_t is a signed type of its own.
--
-- Fuel: the loop of WriteBufferToDataFiles runs on as much fuel as there are values in the buffer;
-- each round that goes on takes a value off it. A whole Destroy of the TCP client service runs its
-- thread for `moves_left` moves, within which the thread ends from every place that it can be at.
-- The digits of a number n have n + 1 for fuel, and fewer than that many digits.
-- No other function needs fuel.
--
-- Not modelled: the S-functions, which a tool of Simulink generates; the branches for Windows and
-- for the simulation on the host, but for the directory of a recording; printed messages; the
-- rounding of floating-point numbers; the contents of datagrams and of TCP messages that the
-- services receive; the priorities of threads other than the tasks' own. The time that a step takes
-- is no part of the model.
pub mod Base
pub mod Task
pub mod Recorder
pub mod Net
pub mod Udp
pub mod Tcp
pub mod Timer
pub mod Scheduler
pub mod Clock
pub mod Drivers
pub mod Services
pub mod App
pub mod Event
