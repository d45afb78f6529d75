-- ===== src/Lib.antt =====
-- Monidroid: an Android phone as a further monitor of a computer.
--
-- The phone connects to the server by TCP, over Wi-Fi or through adb, and shakes hands; the server plugs in
-- a virtual monitor with the phone's resolution, sends the frames that the system draws on it as JPEG
-- images, and replays the phone's input. On Linux the monitor is one of the EVDI kernel module, on Windows
-- one of an indirect display driver that the repository brings along. Further threads answer phones that
-- look for the server by UDP, and watch the USB ports for phones.
--
-- Files and the code that they model:
--   Base           bytes, `int`s in memory, Boolean tests and lists, for all the parts.
--   Edid           common/monidroid/edid.h: the struct `EDID` and its bytes (Data), `CUSTOM_EDID` (Custom),
--                  `setDefaultMode` (Mode), `commit` (Commit). Timing and Checksum have proofs.
--   Protocol       common/monidroid/protocol.h: words and error codes.
--   Native         server/native.h: what a platform reports of frames. Elevation: `checkElevation`, of
--                  server/linux/misc.cpp and server/win32/misc.cpp.
--   Driver         iddcx-driver. Modes: the callbacks of Main.cpp for modes. Ioctl: its handler of requests,
--                  and the codes of these (Codes). Device: the start of the driver. Adapter: Adapter.cpp, the
--                  slots of the monitors. Monitor: the contexts of Monitor.cpp. Processor: its thread.
--                  Lifecycle: how processors come and go, with their threads and handles. Adapter/Validity and
--                  Ioctl/Served have proofs about the slots over a whole session.
--   Client         server/client.cpp. Identify: `identifyClient`. Send: the messages. Frames: `sendFrames`.
--                  Input: `receiveMain`. Their child modules have the proofs; Send/Wire has a reader of the
--                  protocol that the messages are compared with.
--   Server         server/server.cpp. Data: contexts and the set of clients. Main: accepting, and
--                  `communicationMain`, the thread of a client. Decimal: `std::to_string`. Registry, Accepts,
--                  Sessions and Shutdown have proofs. Threads: the same operations as steps of the threads of
--                  the server, in any order; its child modules have the invariant (Views, Invariant) and what
--                  follows from it (Joins). Sets: the set of clients as a quotient of lists.
--   Control        server/control.h: `MDApp`, with the JSON library as an interface (Json). Dispatch has
--                  proofs.
--   Entry          server/main.cpp: the servers of the program. Names: the names of the messages. Handlers:
--                  `setupControl`. Startup: `main`. States, Requests, Disconnects, Closing and Ends have
--                  proofs.
--   Evdi           server/linux/evdi.cpp. Monitor: handlers, frame requests, mapping. Adapter: the search for
--                  a device. Uinput: the input device, and the arguments of a connection. Buffer, Status,
--                  Streams, Phones and Uinput have proofs; Streams puts the frame loop of the client on a
--                  monitor, and Phones the thread of the server on both.
--   Iddcx          server/win32/iddcx.cpp: frame requests on top of the driver, mapping, the health check.
--                  Connect: connection and disconnection through the driver's handler, and input. Devices: the
--                  creation of adapters and devices. Handles: the handles of the server's process. Frames and
--                  Plugging have proofs.
--   Service        server/win32/service.cpp. Paths: the path of its log file. Handles and
--                  Reports have proofs.
--   Echo, Usb      server/echoserver.cpp and server/usbserver.cpp.
--   Runs           the parts on concrete inputs.
--
-- The state of each class is a record with the fields of the class; an operation is a function from the state
-- to the next one, and what it gets from outside the program (the result of a read, of a call of the
-- system, of libusb, EVDI, turbojpeg or the driver framework) is an argument. Loops over such results run
-- over a list of them, so that they need no fuel; a loop that would go on with more of them says so in its
-- result (`waiting`, `busy`, `false`). The search for a device takes as fuel the numbers up to the
-- threshold, which is as far as the code's loop goes. Undefined behaviour that the code can reach (an index
-- out of range, a division by zero) is `none`, and `undefined` in the control interface.
--
-- Numbers are natural numbers with the wrap-around of `u8`, `u16` and `u32` written out; an `int` of the
-- protocol is its bit pattern. The arithmetic of `double` in `setDefaultMode` is a parameter, the record
-- `Doubles`, of which only the range of a conversion to `u32` is used. Products of the sizes of EVDI
-- modes wrap round as an `int` of 32 bits does; that `reserve` throws where one is negative is not modelled.
--
-- The two threads of the server's process, that of the control interface and that of asio, take turns:
-- `main` is a function of the sequence of events that they meet, and an event is one step. That an exception
-- of a handler leaves `run` of the WebSocket library, and that deferred functions are called between messages,
-- is what is assumed of that library. Of JSON, `IsJsonLibrary` says what is assumed.
--
-- In Server/Threads a step is what runs under the server's lock at once, or a call of the notifier; what a
-- client's thread does to its own client between two steps is left open, so that its steps allow more than
-- the code does. The handler of an accept is two steps: the thread starts in the first, its handle is stored in
-- the second, and both can come after the destructor has cancelled the acceptor. A last lock
-- that finds an empty handle ends the process, and is no step. Steps on the memory of a server that has been
-- destroyed, which are undefined, are not told from others. The functions of Server/Main that take a whole handler or a whole thread at once are
-- one such order.
--
-- In Service the handler of a control is called as a whole, before the loop or the wait goes on.
--
-- Not modelled: logging, the set-up of the graphics devices beyond the results of its calls, the command
-- lines of other programs (adb, the terminator), the WebSocket library, and the control panel (control).
pub mod Base
pub mod Edid
pub mod Driver
pub mod Native
pub mod Protocol
pub mod Client
pub mod Control
pub mod Server
pub mod Entry
pub mod Evdi
pub mod Iddcx
pub mod Echo
pub mod Service
pub mod Usb
pub mod Runs
