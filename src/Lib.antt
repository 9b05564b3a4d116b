-- ===== src/Lib.antt =====
-- multipath_proxy: a proxy that carries TCP flows over two paths, a terrestrial one (ter) and a
-- satellite one (sat), and puts the packets of each flow back in order on the other side.
--
-- The parts, and the files that model them:
--
-- - Exception.antt: the exception classes (src/exception/Exception.h). Outcome.antt is what a call
--   comes to: a value, an exception, or a fault, that is a failed assertion, an access out of
--   bounds, or a wait. Memory.antt has bytes, little-endian words, and reads and writes at an
--   offset.
-- - Packet: Buffer, Header, FlowHeader, FlowPacket and HeartBeat are the classes of src/packet of
--   the same names; Layout is how the packed structs lie in memory. A packet is its buffer; a
--   header is a view of its first bytes. The C allocator is a parameter (Packet.Buffer.Allocator):
--   realloc may fail, and else keeps the bytes that both blocks have room for.
-- - Collections: BlockingQueue is src/collections/BlockingFlowPacketQueue.h (Insert, Pop, Empty,
--   Clear), FlowMap is FlowMap.h and FlowMap.cpp (Insert, Find, Erase and the shared backlog). Each
--   method holds the mutex, so it is one step; a Pop that waits is the fault `blocked`.
--   BlockingQueue/Bags is the abstract view of a new queue: a bag of packets, without their order.
--   LockFree is LockFreeFlowPacketQueue.h and LockFreeFlowPacketQueue.cpp: Insert, and in its
--   children Pop, Clear and the threads that call them. A step is one access to what the threads
--   share; a schedule says whose step comes next. LockFree/Alone is one thread by itself, beside
--   the other queue. ConnectionManager is ConnectionManager.h.
-- - Net: SockAddr is ipv4::SockAddr_In, with SockAddr and ipv6::SockAddr_In6 in its children
--   (src/net/SockAddr.h). Transport is the socket under a connection, a parameter: recv gives the
--   next bytes of the stream, cut as it likes, or fails; send takes over a part of what it is
--   given, or fails. Receive is Bond::RecvFromConnection up to the packet in hand, Send is
--   Bond::SendToConnection, and Bond has SendToTer, SendToSat, the heartbeat and the way of a
--   packet to its flow (src/net/Bond.cpp); Receive/Stream calls the first again and again, as
--   src/worker/Looper.h does. Flow is src/net/Flow.cpp: RecvFromConnection, SendToConnection,
--   SendToBond and WriteToFlow are steps on the state of the flow, each taken as a whole up to a
--   close packet, behind which each access to `closed_` is a step, and `run` takes them in any
--   order. Proxy is src/net/Proxy.cpp. Bond/Life, Proxy/Life and Flow/Life have the constructors,
--   the teardown and the destructors. Socket, Connection and Listener are the headers of these
--   names, over system calls that are a parameter (Net.Socket.Kernel); Tcp has their instances for
--   the two families (src/net/TcpSocket.cpp, TcpConnection.cpp, TcpListener.cpp). A call that
--   changes the system or the connection manager is an Action (Action.antt): what it comes to, and
--   the state behind it, also behind an exception.
-- - Worker: Looper is src/worker/Looper.h. Args is src/args/Args.cpp, over what getopt_long
--   returns. Metrics has the rows of src/metrics/Metrics.cpp. Context is src/context/Context.cpp
--   and the life of the metrics in it: a step relation of the thread that makes and deletes them,
--   and their looper. Main is src/main.cpp behind init; the bond and the proxy that it runs are an
--   argument.
-- - Tests: an allocator, a connection and a kernel to run the model with, and the theorems at
--   concrete inputs.
--
-- How they interact: a bond reads packets from its two connections and gives each to its flow,
-- which queues it and sends it to the endpoint when its turn comes. The other way, a flow reads
-- from its endpoint, numbers packets, queues them, and gives them to one of the two paths.
-- Net/TwoPaths.antt puts sending, receiving and the queue behind both paths together; Net/EndToEnd
-- adds the flows on both sides: Flow/Outgoing from the endpoint to the paths, Flow/Incoming from
-- the bond to the endpoint.
--
-- A thread on the lock-free queue that uses a null pointer, or one to a deleted node, stands at
-- `crashed`; nodes that are deleted are not allocated again.
--
-- The reading and sending loops run on fuel, one round for each unit. Each round of a connection
-- that is up moves at least one byte, so the size of what is moved and one more is enough.
--
-- Not modelled: the logging of one line. Within a handler of a flow the other threads do not move,
-- but for the accesses of its senders to `closed_`, and a write of the metrics looper is one step.
-- What ioctl finds in a queue is a list of readings.
pub mod Prelude
pub mod Exception
pub mod Text
pub mod Outcome
pub mod Action
pub mod Args
pub mod Memory
pub mod Packet
pub mod Worker
pub mod Collections
pub mod Net
pub mod Metrics
pub mod Context
pub mod Main
pub mod Tests
