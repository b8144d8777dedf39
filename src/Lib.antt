-- ===== src/Lib.antt =====
-- The device manager: a daemon and tools that talk to an embedded device over a serial line.
--
-- Parts and files. A byte stream is buffered in a ring (src/common/ring_buffer.c, in Ring.antt
-- and Ring/), framed with a CRC-32 (src/common/crc32.c, in Crc.antt and Crc/; src/protocol/frame.c
-- and include/devmgr/protocol.h, in Protocol.antt and Protocol/) and taken apart by the parser
-- (src/protocol/parser.c, in Parser.antt and Parser/), which calls back for each frame. A session
-- (src/device/session.c, in Session.antt and Session/) keeps the device's state and the one
-- request in flight. An upgrade (src/upgrade/upgrade.c, in Upgrade.antt and Upgrade/) drives the
-- device through a firmware update with requests that the session sends. A worker thread
-- (src/worker/worker.c, in Worker.antt and Worker/) opens and maps the image file
-- (src/upgrade/firmware.c, in Firmware.antt and Firmware/). devctl and the daemon
-- exchange requests and responses (src/ipc/codec.c, in Ipc.antt and Ipc/). Stm32.antt and Stm32/
-- hold the reference firmware of the device (firmware/stm32f103): its own frame codec
-- (common/protocol.c), the bootloader that takes an update (bootloader/update.c) and the
-- application (application/device_app.c). Simulator.antt and Simulator/ hold the simulated device
-- (simulator/device): its state, its answers, what leaves it, and in Exchange.antt and Exchange/
-- the host's upgrade and the device on one link. Daemon.antt and Daemon/ hold the daemon
-- (apps/devmgrd/daemon.c): what it does with a device frame, a worker's result and the timer
-- (Upgrading.antt), with a client's request (Clients.antt), its reading of clients (Input.antt and
-- Input/), its writing and the new clients (Output.antt and Output/), and its event loop over all
-- of these (Loop.antt and Loop/), with what is owed to the clients in Served.antt and Served/. The
-- calls of the host report a code of
-- include/devmgr/error.h (Status.antt). Base.antt and its children hold the shared list,
-- word and string functions, Span.antt the pointers with a length, Tests.antt and its children
-- runs on concrete inputs.
--
-- Correspondence. A struct is a record with its fields, an enum a data type with its members, a
-- function keeps its name without the prefix `devmgr_` and the component's name. A pointer to an
-- object is the object before the call, and after it a part of the result; calls with a null
-- pointer to an object, which return DEVMGR_ERROR_INVALID or do nothing, are left out, but a
-- null pointer to data with a length is a value of Span or Option. A pointer out of which
-- `*encoded_length` is written is an argument and a part of the result. A buffer with its
-- capacity is a list, whose length is the capacity; an array is a list of its whole length.
-- A w-bit number is a native number, and a cast or an overflow is `% 2 ^ w`; the `int` status of
-- an IPC response is an integer. An `or` of shifted bytes is their sum. A callback with its
-- context is a function from the frame and the context to a status and a context, and a parameter.
-- `memcpy` writes nothing past the end of its target; no modelled call reaches that.
--
-- Loops are by recursion on lists or on counts, those of the parser on fuel: a round that does
-- not end them takes a byte or more, so one more than there are bytes is enough, which is proved.
-- The loop of the bootloader over blocks of 32 bytes has as many rounds as there are bytes, which
-- is enough, since a round takes a byte or more.
-- Flash operations and the context they work on are parameters.
--
-- The clock, `malloc`, and what `write`, `open`, `fstat` and `mmap` give are parameters; where a
-- system call may be interrupted its outcomes are a list, and a call that the list does not bring to
-- its end gives `none`. A loop of the daemon on a non-blocking descriptor has such a list too, behind
-- which the next call gives EAGAIN; an event of its loop says what is ready and brings the lists of
-- its handler, and whether `epoll_ctl` succeeds. The critical sections of the worker's thread come
-- between the events in any order, with what `devmgr_firmware_open` has given for a job. The
-- `double` rates of the simulator's faults are dyadic fractions, which is what a double is. Seconds with nanoseconds are one number of nanoseconds.
--
-- In the host's upgrade next to the simulated device (Simulator/Exchange.antt) a round delivers a
-- request once or not at all. It leaves out the retransmissions of `devmgr_session_tick`: a request
-- or response that is lost stands for one whose retries are spent, and a device never has to answer
-- a repeated FW_BEGIN or FW_DATA there, though its handlers have those branches. The request that
-- follows a timeout is always queued; a failing `queue_upgrade_request` is in the daemon's model only.
--
-- Not modelled: the making and the closing of the daemon's descriptors (its listener, `epoll`, timer
-- and signals) and its configuration; the polling loop of the simulator; the serial line,
-- pseudo-terminals, sockets, the log and the `main` functions, which are system calls and formatted
-- output; the mutex and event descriptor of the worker, and its thread outside the critical sections.
pub mod Base
pub mod Status
pub mod Span
pub mod Crc
pub mod Protocol
pub mod Ring
pub mod Parser
pub mod Session
pub mod Upgrade
pub mod Firmware
pub mod Worker
pub mod Ipc
pub mod Stm32
pub mod Simulator
pub mod Daemon
pub mod Tests
