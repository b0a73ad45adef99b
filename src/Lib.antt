-- ===== src/Lib.antt =====
-- The WNBD virtual disk driver (driver/, C, a StorPort miniport): its request path; and the NBD client
-- that serves its disks (libwnbd/, C++). Windows hands a SCSI request block (SRB) to the driver; the
-- driver answers it, or checks it and queues it on its disk's pending list; a user space process
-- fetches it, serves it and replies; the driver completes the SRB. The NBD daemon is such a process:
-- it passes each request on to an NBD server and each of its replies back.
--
-- The parts, and the files that model them:
--   Types, Wdk, Word: the structures of include/wnbd_ioctl.h and driver/scsi_driver_extensions.h, the
--     constants of the WDK by name, and 8- to 64-bit numbers with their wrap-around.
--   Cdb: SrbCdbGetRange of driver/srb_helper.h, ScsiOpToWnbdReqType of driver/util.h.
--   Submitted: the list and the tag hash of submitted requests, driver/util.c.
--   Request/Pool, Request/Complete, Request/SrbStatus, Request/Validate: the element pool,
--     CompleteRequest and DrainDeviceQueue, SetSrbStatus, ValidateScsiRequest, all of driver/util.c.
--   Request/Pend, Request/Execute: WnbdPendOperation of driver/scsi_operation.c and
--     WnbdExecuteScsiFunction, driver/scsi_function.c.
--   Request/Memory, Request/Send, Request/Dispatch: WnbdDispatchRequest of driver/wnbd_dispatch.c;
--     Request/Response: WnbdHandleResponse of the same file.
--   Request/Initialize: WnbdInitializeDevice of driver/userspace.c.
--   Books, Accounts, Lifecycle: the invariants of a device and its operations in any order.
--   Connections: the adapter's disks, their SCSI addresses and the lookups, WnbdCreateConnection,
--     WnbdSetDiskSize and the teardown of a disk, driver/userspace.c and driver/util.c.
--     Connections/Invariant: what always holds of them.
--   Ioctl: WnbdParseUserIOCTL of driver/userspace.c. Ioctl/Lookup: the lookups of driver/util.c that hold
--     a disk; Ioctl/Check: sizes, names and the tests of the buffers; Ioctl/Mapping, Query, Traffic and
--     Setting: the handlers of the commands; Ioctl/Parse: the switch.
--   Miniport/StartIo, Miniport/Firmware: WnbdHwStartIo of driver/scsi_driver_extensions.c and what it
--     calls of driver/scsi_function.c; Miniport/Pnp: WnbdDispatchPnp of driver/driver.c;
--     Miniport/Cleanup: WnbdCleanupAllDevices of driver/util.c up to its wait; Miniport/Configure: queue depths of
--     WnbdHwFindAdapter, and WnbdHwProcessServiceRequest.
--   Dispatcher: WnbdHandleRequest, WnbdSendResponseEx and WnbdDispatcherLoop of libwnbd/libwnbd.cpp;
--     Dispatcher/Threads: WnbdStartDispatcher.
--   Removal: WnbdRemoveEx and WnbdPollDiskNumber of libwnbd/libwnbd.cpp.
--   Emulated, Emulated/Pages, Emulated/Modes, Emulated/Operation: the commands that
--     driver/scsi_operation.c answers itself, and WnbdHandleSrbOperation.
--   Options, Options/Table: driver/options.c, driver/options.h, WstrToBool of driver/util.h.
--   Nbd/Wire, Nbd/Socket, Nbd/Handshake, Nbd/Request: libwnbd/nbd_protocol.cpp and its header.
--   Nbd/Daemon, Nbd/Start: libwnbd/nbd_daemon.cpp.
--   Examples: concrete inputs.
--
-- The model: a device is a record, each operation a function from the device before to the device
-- after. A pointer to a queue element is the element with its address; a list head is the list of its
-- elements. What other components answer (the allocator, the clock, the memory manager, StorPort's
-- system address, a wait, the search of the bitmap) is an argument. A step is one call under its
-- lock, or one round of the loop of WnbdDispatchRequest; between two rounds any other call may run,
-- and another thread may set HardRemoveDevice inside a round at the two places where the code reads
-- it.
--
-- The NBD client runs on a socket whose recv and send are parameters; IsStream is what Winsock
-- documents of them. A call returns a value or an error code, with the socket after it. A recv
-- on a silent peer waits for ever, and then the call that made it has no result either. Each handler
-- of the daemon, and each reply, is one step, for its locks are held around the accesses.
--
-- Bounds and fuel: the loop of DrainDeviceQueue runs on fuel, one round for each element of its list
-- and one that finds it empty. A fetch runs over the list of rounds it is given, and a caller that
-- still waits after them has no result. RecvExact and SendExact run one round for each byte at
-- most; the loop of NbdNegotiate runs on fuel, and as many rounds as the server sends bytes, and one,
-- are enough; that of NbdReplyWorker runs on fuel. Every other loop is structural.
--
-- A command of user space, a call of StorPort and one of the PnP manager are one step each on the adapter,
-- whose disks keep their devices by connection id. The system buffer of a command is a record with one
-- field for each structure that a handler reads it as. A NUL that a handler writes into the command is
-- recorded by how far it reaches. A call that waits for others has no result.
--
-- Not modelled: the driver's entry and its registrations, tracing; what ends the wait of
-- WnbdCleanupAllDevices after the one thread that it wakes; a send that waits for ever; the rest of
-- libwnbd.cpp, and wnbd_ioctl.cpp, which wrap system calls; the owner and the NBD part of a disk's
-- properties, which the driver only stores; the addresses that ConnectNbdServer tries, the command line client; failing
-- allocations of the NBD client but for the read buffer; lengths of 2^31 bytes or more, which
-- RecvExact and SendExact cast to int; a truncation of an SRB's data buffer by its own transfer
-- length.
pub mod Prelude
pub mod Word
pub mod Wdk
pub mod Types
pub mod Cdb
pub mod Submitted
pub mod Request
pub mod Books
pub mod Accounts
pub mod Lifecycle
pub mod Connections
pub mod Emulated
pub mod Ioctl
pub mod Miniport
pub mod Nbd
pub mod Options
pub mod Dispatcher
pub mod Removal
pub mod Examples
