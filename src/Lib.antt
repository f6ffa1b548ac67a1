-- ===== src/Lib.antt =====
-- Verification of taskmonitor's core: the sources of statistics, the registry of processes, the
-- connections of the collectors, the state manager, the servers, the process accounting, the
-- options and the start of the application.
--
-- The application (source/Application.cpp) reads its options, chooses the intervals of three lanes
-- and creates the data sources. A timer per lane calls `update` of each of its sources; a source
-- pushes a request to its queue, and the event loop hands it to the source's handler, which reads
-- a file of /proc into a message. A collector asks for the message by another request. The process
-- registry is a source that keeps the entries of the processes and of their contexts; the kernel's
-- process events change its list between the timers. What is read in the first minute is kept in
-- the startup data. A connection of a collector (source/TCPCollector.cpp, source/UDSCollector.cpp)
-- reads messages and turns them into requests; the state manager keeps the connections, removes
-- idle ones and holds the system's wake lock while one over TCP is active. The servers
-- (source/TCPServer.cpp, source/UDSServer.cpp) accept the connections; while one over TCP is
-- there, the entries ask the kernel for their accounting (source/ProcAcct.cpp), and its answers
-- are written to them.
--
-- Files, by the code they are about:
--   Common: shared names. Tests has Boolean tests, Lists has lists, Effects has exceptions and
--     state, Text has the calls of the C++ library on text (find, stream words, stoul). Below
--     Text, Decimal and Spaced print numbers and lines, for the round trips.
--   Bswinfra: the submodule bswinfra, whose code the repository does not hold, as two
--     interfaces. `AsyncQueue` is the event queue, `SafeList` the list with staged changes.
--     Plain fills both by lists, Changes has lemmas on commits.
--   Messages: the messages and the clock (source/ICollector.h); Acct is the message of a
--     process's accounting.
--   Source: source/IDataSource.h and the request cycle that every source/SysProc*.cpp repeats:
--     `update`, `push_request`, `request_handler`, `dispatch`. Pending and History are its
--     proofs.
--   LineTable: the loop over the lines of a file that source/SysProcMemInfo.cpp and
--     source/SysProcVMStat.cpp share. Apart and Reading are its proofs.
--   MemInfo, VmStat: these two sources; Percent and Lines are their proofs.
--   CpuStat: the counters and samples of a processor (source/SysProcStat.h,
--     source/SysProcStat.cpp). Counters, Samples and Growth are its proofs.
--   StartupData: source/StartupData.h and .cpp; Expiry is about its histories.
--   Options: source/Options.cpp with the defaults of source/Defaults.h.in; Intervals is about
--     the keys that are numbers.
--   Application: mode, log level, lanes, sources and timers of source/Application.cpp; Timers
--     has the proofs.
--   ProcEntry: the construction of an entry (source/ProcEntry.cpp) and the name of a process.
--     Update has its updates (`updateProcInfo`, `updateProcAcct` and what they read); Lines,
--     Sampling and Percent are the proofs.
--   ProcRegistry: source/ProcRegistry.cpp and source/ContextEntry.cpp. Contexts and Requests
--     have the messages, Updates the walk over /proc and the timer of a lane, Requests also the
--     handler of the queue and `initFromProc`; Invariant, Additions, Upkeep, Lookup, Removal,
--     History, Handling, Listing, Waiting, Unanswered, Totals, ContextMessage and Walk are the proofs.
--   ProcEvent: source/ProcEvent.cpp, the callback of the netlink socket; Calls has the proofs.
--   ProcAcct: source/ProcAcct.cpp, the requests and the answers of the kernel; Averages, Answers, Unheard
--     and Keeping are its proofs.
--   Keyed: the loop that the sources below share: a line updates the entries with its key, or
--     adds one. View has the list as a map, Refines and Rows the loop against the map, Entries
--     what every entry keeps, Fresh a reading of lines with new keys.
--   DiskStats, BuddyInfo, Wireless: source/SysProcDiskStats.cpp, source/SysProcBuddyInfo.cpp and
--     source/SysProcWireless.cpp; Devices, RoundTrip, Zones and Interfaces are their proofs.
--   Pressure: source/SysProcPressure.cpp; Tokens and RoundTrip are its proofs.
--   CpuList: `SysProcStat` of source/SysProcStat.cpp, the list of processors, whose entries are
--     those of CpuStat; Processors and Figures are its proofs.
--   Session: the reading loop and the requests of source/TCPCollector.cpp and
--     source/UDSCollector.cpp, and source/ICollector.h; Routes, LaneLists and Receive are its
--     proofs.
--   StateManager: source/StateManager.cpp; WakeLock, Settles and Idle are its proofs.
--   Servers: source/TCPServer.cpp, source/UDSServer.cpp, and the constructors and finalizers of
--     the collectors with the counter of source/Application.h; Counter and Listening are its
--     proofs.
--   Netlink: the constructors of source/ProcEvent.cpp and source/ProcAcct.cpp.
--   Start: the constructor of source/Application.cpp; Sizes and Pointers are its proofs.
-- The modules Tests, and WalkTests of ProcRegistry, have runs at concrete inputs.
--
-- State is passed explicitly. A `shared_ptr` is a number, `Ref`, and objects that are shared stand
-- in a store, a function of their references. A call that can fail gives an `Outcome`: a value, an
-- exception, or a trap, which ends the process (a division by zero, or a read through no object);
-- the writes made before an exception are kept. A counter is a number below 2^64, and arithmetic
-- on it is reduced modulo 2^64; figures of 32 bits are reduced modulo 2^32. Text is a list of
-- bytes. No loop needs fuel: each follows a list.
--
-- Parameters: the files of /proc and the clocks are what a call is given, and the steady clock is
-- never before an earlier date; the widths of the totals of a context, the id of a process's
-- context and the hash `jnkHsh` are libtkm's, and a numeric field of another message holds what it
-- is set to; the configuration file is bswinfra's, as a function from section and name to a value;
-- what a connection's reader returns is a list of messages, and whether a message could be written
-- is part of the moment at which it is. The names that the walk over /proc is given are those of
-- directories. Built with VM statistics, startup data, process events,
-- accounting of version 9 or later and the wake lock, without LXC. A `float` of the pressure files
-- is a value of a parameter, with its `std::stof`. What `accept`, `bind`, `listen`, the host
-- lookup and the netlink calls answer is given to the calls that make them.
--
-- Not modelled: the watchdog and source/Main.cpp, which are input and output of the system; the
-- message formats of libtkm; the end of the application that the loss of the netlink socket asks for,
-- but for the decision to ask. The list of bswinfra is visited as it was when the visit began.
pub mod Common
pub mod Bswinfra
pub mod Messages
pub mod LineTable
pub mod Source
pub mod ProcEntry
pub mod ProcRegistry
pub mod Netlink
pub mod Start
pub mod StartupData
pub mod Options
pub mod Application
pub mod CpuStat
pub mod MemInfo
pub mod VmStat
pub mod Servers
pub mod Session
pub mod StateManager
pub mod Keyed
pub mod DiskStats
pub mod BuddyInfo
pub mod Wireless
pub mod CpuList
pub mod ProcAcct
pub mod ProcEvent
pub mod Pressure
