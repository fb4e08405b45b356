-- ===== src/Lib.antt =====
-- A model of websocket_cpp, a websocket server and client in C++ on a small reactor.
--
-- The program has these parts. `websocket/` holds the frame codec (`WSProtocol`), the heartbeat, and
-- the server and client on top of the network layer. `net/` holds connections, the acceptor and the
-- connector, `base/` the reactor with its poller, timers, buffers and threads. Bytes from a socket go
-- through a `Buffer` to the message callback of a connection, from there to `decodeFrame`, and from
-- there, one whole message at a time, to `func`; `encodeFrame` gives its frames to the sending side.
-- The timer queue runs on the same loop, and drives the heartbeat.
--
-- What is modelled, and where:
--   Base: Boolean tests, lists with indices, storage (`segment`, `overwrite`), and the outcomes of code
--     that asserts or reads memory: `aborted` for a failed `assert`, `faulted` for an access outside
--     an array or to a deleted object.
--   Protocol: websocket/WSProtocol.h and websocket/WSProtocol.cpp. Head has `WSHead` and `OpCode`,
--     Mask `computeMask` and `computeUnMask`, Encode `encodeFrame`, Decode the class and `decodeFrame`.
--     RoundTrip runs a receiver on the frames of a sender.
--   Buffer: base/Buffer.h and base/Buffer.cpp.
--   TimerQueue: base/TimerQueue.cpp with the parts of base/Timer.h and base/Timestamp.h it uses.
--   Heartbeat: websocket/Heartbeat.cpp. Sender runs the sender over the runs of its timer and the pongs
--     that come in, Receiver and Exchange have the other end.
--   WsNet: the client of websocket/WSNet.cpp: its constructor, in Url, connections and messages, and its
--     `send`, in Send.
--   WebSocket: what the user of websocket/WebSocket.cpp sends. Arrives follows a string through WsNet.Send,
--     Protocol, Reactor, NetConnection and WebSocketServer.
--   Poller: base/SelectPoller.cpp, and the handlers of base/EventHandler.h and base/EventHandler.cpp.
--   NetConnection: net/NetConnection.cpp, on top of Buffer and Poller; Queued has its `send` behind the
--     queue of Reactor.
--   Reactor: the queue of functions of base/Reactor.cpp. Steps has the loop and the other threads as one
--     step relation, Order and Wakeup what holds in all their interleavings.
--   ThreadPool: base/ThreadPool.cpp, its threads and users as one step relation.
--   Thread, MutexLock: base/Thread.cpp, what becomes of the handle of a thread, and base/MutexLock.h with
--     base/Condition.h, as a step relation of any number of threads.
--   ReactorThread: base/ReactorThread.cpp, the owner and the thread of a reactor as one step relation; on
--     top of Thread.
--   Connector, NetClient: net/Connector.cpp and net/NetClient.cpp. NetClient has the whole client as a
--     function of what happens to it: the connector, its connection, and the heartbeat of WsNet.
--   NetServer, ReactorThreadPool: net/NetServer.cpp, the table of connections, and
--     base/ReactorThreadPool.cpp, the reactors that they get.
--   SocketOpts, Acceptor: base/SocketOpts.cpp, the functions that decide something, and
--     net/Acceptor.cpp.
--   Utility: `strsplit` of websocket/Utility.cpp, which takes an url apart.
--   WebSocketServer: websocket/WebSocketServer.cpp; Messages and Replies put both ends together, from a
--     `send` to the callback of the application at the other end.
--
-- How the state corresponds. An object is a record of its members and an operation a function from the
-- record to a result with the new record. A pointer into received bytes is the list of what lies from
-- there on, to the end of its array; `len` is kept apart from it. A call of `func` is an entry of a
-- list. An uninitialised header is a parameter (`stack`), and so are what `new` leaves in memory
-- (`heap`, `junk`), what waits for `readv`, and the time of day (`now`). `Timer*` is a number, and the
-- heap of the timer queue says which timers are allocated.
--
-- Bounds and fuel. The loop of `decodeFrame` has one unit of fuel a round; more than `len` is enough
-- wherever the loop ends, since a round takes at least a byte off `len` except at one kind of header.
-- The wait of `WSNet::send` has one for each time that it looks at `bconnected_`, and is enough from the
-- first time that this is true; there is none otherwise.
-- That of `strsplit` has one more than the length of the string, as the separator is not empty.
-- `encodeFrame` makes at most 8001 frames of at most 508 bytes of a payload of 4000000 bytes, so what
-- it sends stays below the 4 MiB that `decodeFrame` accepts. Machine integers keep their widths where
-- a value can leave them: header fields, the 16-bit length of a frame, bytes that are masked.
--
-- Not modelled: log output, also where it reads a handler that was deleted by its own callback, which
-- only NetConnection has; the context pointers, which are only passed on; tests of `func` for NULL,
-- which it never is in the callers; the callbacks that timers run, but for the heartbeat's; allocation
-- failure; destructors, but for those of timers, handlers, threads and locks; and wrappers of single system
-- calls.
pub mod Base
pub mod Protocol
pub mod Buffer
pub mod TimerQueue
pub mod Heartbeat
pub mod WsNet
pub mod Poller
pub mod NetConnection
pub mod Reactor
pub mod ThreadPool
pub mod Thread
pub mod MutexLock
pub mod ReactorThread
pub mod Utility
pub mod Connector
pub mod NetClient
pub mod NetServer
pub mod ReactorThreadPool
pub mod SocketOpts
pub mod Acceptor
pub mod WebSocketServer
pub mod WebSocket
