-- ===== src/Lib.antt =====
-- Verification of the core of a fiber-based network framework in C++.
--
-- A server is a set of threads that run the loop of a scheduler. The scheduler takes tasks, which are
-- fibers or callbacks, from one queue and swaps them in. The event poller is a scheduler whose idle
-- fiber waits in epoll; it hands the continuation of an event, a callback or a fiber, back to the
-- queue when the event happens, and the callbacks of the timers that are due. The table of descriptors
-- says which of them are sockets, and the byte buffer turns values into the bytes of a stream. Addresses,
-- sockets and the TCP server stand on these; the log, the arguments and the configuration serve all.
--
-- Which file models which part; paths are from the repository's root.
--   Common     shared names, lists and numbers over the native numbers, Boolean tests (Common/Tests),
--              slices of lists (Common/Slices), and calls that may fail an assertion or be undefined
--              (Common/Checked, where `Assert` of src/util/macro.h ends the program)
--   Bytes      src/socket/bytearray.h and .cpp, src/socket/endian.h. Bytes/State has the record
--              `ByteArray`, with `m_root` as a list of blocks and `m_cur` as an index into it, and
--              `write`, `read`, `setPosition`, `addCapacity`; Bytes/Chain the two copying loops;
--              Bytes/Words the fixed-width integers; Bytes/Varint and Bytes/Zigzag the others;
--              Bytes/Strings the strings; Bytes/Buffers the io vectors. Bytes/Capacity, Write, Read,
--              RoundTrip and Rewound have the proofs. `contents` is what a client sees.
--   Timer      src/timer/timer.h and .cpp. Timer/Defs has the operations over a heap of timers and the
--              ordered set as the list that its iterators go through; Timer/Order, Sets, Due,
--              Expire and Manage have the proofs. The clock is an argument.
--   Poller     src/eventpoller/eventpoller.h and .cpp. Poller/Defs has the contexts and the methods, and
--              Poller/Locks what one thread does with `m_mtx`;
--              Poller/Contexts, Resize, Steps, Remove and Deliver have the invariant and the proofs;
--              Poller/Stopping has `stopping` and the time that `idle` waits. The answer of
--              `epoll_ctl` is an argument of each call, and the calls that succeed are logged.
--   Sched      src/fiber/scheduler.h and .cpp. Sched/Load has `LoadCounter`; Sched/Defs the queue and
--              one round of `Scheduler::run`; Sched/Pick and Step the proofs. What a fiber does while
--              it is swapped in is a parameter, a function on the whole state, and so is whether a pointer to a
--              fiber is the last one.
--   Fibers     src/fiber/fiber.h and .cpp. Fibers/Defs has the states, the saved contexts and the
--              switches on one thread; Fibers/Switch the proofs.
--   Fds        src/socket/fdManager.h and .cpp. Fds/Defs has `FdCtx` and `FdManager` over a heap of
--              contexts; Fds/Slots the proofs. `fstat` and `fcntl` are parameters.
--   Hooks      src/util/hook.cpp. Hooks/Defs has `do_io`, `fcntl`, `ioctl` and `setsockopt`; Hooks/Close
--              has `close`; Hooks/Calls the calls through `do_io`, `socket`, `accept`, `connect` and the
--              sleeps; Hooks/Io, Flags, Timeouts and Connecting the other proofs. What the original calls
--              answer is an argument, one answer for each attempt; the kernel's file status flags are
--              part of the state.
--   Addr       src/socket/address.h and .cpp. Addr/Defs has the classes, the masks and IPv4; Addr/V6, Unix
--              the other classes; Addr/Text the texts; Addr/Lookup the lookups; Addr/Order the order.
--              Addr/Octets, Host, Subnets, Prefix6, Groups, HostPort, Digits, Printed and Sorted have
--              the proofs. An object holds its structure as the machine stores it, and the machine's
--              byte order is an argument; so are the answers of `getaddrinfo`, `getifaddrs`, `inet_pton`.
--   Sock       src/socket/socket.h and .cpp. Sock/Defs and Steps have the state of a socket with the log
--              of its system calls, and the methods; Sock/Transfers the sends and receives;
--              Sock/Timeouts the timeouts, in the table of Fds; Sock/States the step relation;
--              Sock/Accepting, Descriptors and Connecting the proofs.
--   Server     src/server/TCPserver.h and .cpp. Server/Defs has the server over the sockets of Sock;
--              Server/Bound and Clients have the proofs.
--   Log        src/log/logger.h and .cpp. Log/Pattern has the parser of `LogFormatter::init`; Log/Items the
--              levels, the items and `format`; Log/Defs the appenders, the loggers and their manager;
--              Log/Scanning, RoundTrip, Loggers, Managed and Made have the proofs. A text that is logged is
--              a value; `strftime` is an argument.
--   Env        src/util/env.h and env.cc. Env/Defs has the arguments, the helps and the paths;
--              Env/Arguments the proofs. The answers of `readlink` and `getenv` are arguments.
--   Config     src/config/config.h and config.cc. Config/Defs has the variables, the table and the loading of
--              documents; Config/Casts the casts of vectors; Config/Yaml what the code uses of yaml-cpp, with
--              its laws. Config/Members, Loading, Loaded, Registry, Lookup and Listeners have the proofs.
-- The modules called Runs have runs on concrete states.
--
-- Loops are structural recursion on the list that they walk. The varint writers have the slots of
-- their local buffer as fuel, five and ten, and the readers the bits of the shift; values of 32 and 64
-- bits need no more. The parser of the patterns has the length of the pattern as fuel; a logger has two
-- steps to its root, and a document the height of its tree. Integers are natural numbers with the wrap
-- at 2^32 or 2^64 written out. The sizes and positions of a byte buffer are taken to be below 2^64, and
-- the descriptors of the poller to be natural numbers.
--
-- Not modelled: threads and locks, so that a method is one step, apart from what one thread does with
-- `m_mtx` of the poller; memory that runs out; the floating
-- point numbers, files and hexadecimal dumps of the byte buffer; the start and stop of a scheduler's
-- threads; the options and the printing of a socket; how the log opens its files and formats its
-- arguments; the files, sets and maps of the configuration; the other utilities (src/util).
pub mod Common
pub mod Config
pub mod Addr
pub mod Bytes
pub mod Sock
pub mod Server
pub mod Log
pub mod Env
pub mod Timer
pub mod Poller
pub mod Fds
pub mod Sched
pub mod Fibers
pub mod Hooks
