-- ===== src/Lib.antt =====
-- muduo_net_zxl: a reactor library in C++ with a length-prefixed protobuf codec and an RPC layer.
--
-- An EventLoop polls descriptors through a Poller, runs the callbacks of the active Channels, and then
-- the functors that other threads or those callbacks queued. A TimerQueue is one more channel of the
-- loop. A TcpConnection reads into and writes from two Buffers as its channel tells it; a Connector
-- makes the sockets of a TcpClient and tries again when one fails, an Acceptor takes those that a
-- TcpServer keeps, and an EventLoopThread gives a server more loops. ProtobufCodec cuts the bytes of a
-- connection into messages, which a dispatcher or an RpcChannel takes; RpcChannel matches responses to
-- calls, and an RpcServer gives its services to the channel of each connection. The balancer hands
-- calls on to several servers, and the median example is a service built on these.
--
-- Files, from the repository's root:
--   Buffer         Buffer.h, Buffer.cc, SocketsOps.h: indices into a byte array; `contents` is what is
--                  readable, and the specification is the queue of these bytes
--   Channel        Channel.h, Channel.cc: the events asked for, and handleEvent over any state
--   Poller         Poller.h, Poller.cc: the array for ::poll beside the map of channels
--   TimerQueue     Timer.h, Timer.cc, TimerId.h, TimerQueue.h, TimerQueue.cc: timers on a heap, and the
--                  two sets as sorted lists (OrderedSet)
--   TcpConnection  TcpConnection.h, TcpConnection.cc: states, buffers, and what went to the kernel
--   Codec          protobuf/codec.h, protobuf/codec.cc: fillEmptyBuffer, parse, onMessage; Frame is the
--                  wire format on its own, and Deliver joins the codecs of both ends of a connection
--   Connector      Connector.h, Connector.cc: attempts, retries, and the sockets made on the way
--   EventLoop      EventLoop.h, EventLoop.cc, EventLoopThreadPool.h, EventLoopThreadPool.cc: pending
--                  functors, the event descriptor, and the pool
--   EventLoopThread  EventLoopThread.h, EventLoopThread.cc: two threads, a mutex and a condition
--                  variable, one step at a time
--   Sockets        SocketsOps.h, SocketsOps.cc, Socket.h, Socket.cc, InetAddress.h, InetAddress.cc:
--                  addresses as text and as bytes, and the errors of accept
--   Acceptor       Acceptor.h, Acceptor.cc: what becomes of the connections that come in
--   TcpClient      TcpClient.h, TcpClient.cc: a client over the models of Connector and TcpConnection
--   TcpServer      TcpServer.h, TcpServer.cc: a server's threads, its connections by name, and their loops
--   RpcChannel     protobuf/RpcChannel.h, protobuf/RpcChannel.cc: outstanding calls and requests
--   RpcServer      protobuf/RpcServer.h, protobuf/RpcServer.cc: services by name, and whole calls
--   Dispatcher     protobuf/dispatcher.h, protobuf/dispatcher_lite.h: callbacks by type
--   Balancer       protobuf/balancer.cc: sessions with backends, and the choice among them
--   Median         protobuf/kth.h, protobuf/sorter.cc, protobuf/collector.cc: getKth and its users
--   Prelude        names shared by all: tests, lists, byte ranges, maps, signed integers, and Option as
--                  the result of code that may fail
--
-- Conventions. Numbers are natural; size_t wraps at 2 ^ 64 and int32_t at 2 ^ 32 where the code computes
-- with them. A failed assert, an abort or an exception is `none`. A function takes the state and returns
-- the new one; definitions carry the names of the code in snake_case. The kernel's answers are
-- arguments, and the protobuf library and zlib's adler32 are the fields of a record.
--
-- Bounds and fuel. `Buffer.max_size` is 2 ^ 63 - 1, above which a vector throws. `Codec.on_message` runs on
-- fuel; a round takes at least fourteen bytes out, so more fuel than there are bytes is enough. The loop
-- of getKth counts its own steps to a hundred. The `while` of the event loop runs over the list of what
-- each poll returns.
--
-- Not modelled: destructors; calls of the kernel that only log their failure; logging, whose
-- library is not in the repository (its `LOG_FATAL` ends the program, which is `none` here); the test
-- and example programs and the main functions; generated protobuf code and protobuf/google-inl.h, which is
-- not this project's. The sum and the mean of the collector only go to its log. Of time, only what a
-- function is given is known.
pub mod Prelude
pub mod Buffer
pub mod Channel
pub mod Poller
pub mod TimerQueue
pub mod TcpConnection
pub mod Codec
pub mod Connector
pub mod EventLoop
pub mod EventLoopThread
pub mod Sockets
pub mod Acceptor
pub mod TcpClient
pub mod TcpServer
pub mod RpcChannel
pub mod RpcServer
pub mod Dispatcher
pub mod Balancer
pub mod Median
