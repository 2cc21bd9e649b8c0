-- ===== src/Lib.antt =====
-- UHP-SQL is a SQL server that speaks the MySQL protocol and keeps its data in a Redis server.
--
-- The parts modelled here, and how they work together: a socket keeps what it is to send in an
-- `AsyncBuffer` (network/async_buffer.cc), which is made of a circular buffer (network/buffer.h)
-- between two growing ones (network/unbounded_buffer.cc). The packets of the protocol
-- (network/eof.cc, ok.cc, err.cc, field.cc, auth.cc, greeting.cc) are built and read with the
-- integers and strings of network/protocol_buffer.cc and the column types of network/type.h. The
-- executor and the client put packets into the send buffer behind four bytes of header.
-- The executor (executor/) analyses a statement of the parser, changes the databases and tables in
-- memory (meta/dbms.cc, meta/database.cc, meta/datatable.cc) and the Redis server, and replies.
-- Table descriptions (meta/database.cc) and rows (network/string_utils.h) are kept there as strings.
--
-- Which file models which part:
-- Common and its children: lists, bytes and bit operations over the native numbers.
-- UnboundedBuffer, CircularBuffer, AsyncBuffer: the three buffers, with the class members as record
-- fields and a function for each method, in snake case (`PushDataAt` is `push_data_at`).
-- ProtocolBuffer, FieldType: network/protocol_buffer.cc and network/type.h.
-- Packet.Eof, Packet.Ok, Packet.Err, Packet.Field, Packet.Row, Packet.Auth, Packet.Greeting: the
-- packet classes; `pack` and `unpack` are `Pack` and `UnPack`.
-- Reply: `SendPacket`, the executor's replies and `Client::OnConnect`.
-- StringUtils, Meta: network/string_utils.h, parser/column_type.h and the table descriptions.
-- Store: the Redis server, which is a parameter `Redis` with the laws of GET, SET and DEL, and the
-- commands that the program sends. Nothing is taken to hold of SCAN: a theorem about it names the
-- reply.
-- Catalog: meta/datatable.cc, meta/database.cc and meta/dbms.cc, with the databases on a heap;
-- Catalog.Restart reads back what the statements left in the store.
-- Statement: what the executor reads of the syntax tree of parser/.
-- Executor.Analyze, Executor.Rows, Executor.Exec: the functions of executor/. A server is its
-- databases, its store and a client's socket. The locals of `Exec` that no analysis sets are the
-- parameter `Stack`. Executor.Table is the map from keys to rows that a table stands for.
-- Stream: the sending side of network/stream_socket.cc, over what `writev` and `try_lock` answer.
-- Receive: `Recv` and `OnReadable` of network/stream_socket.cc, over what `readv` answers.
-- TaskManager: network/task_manager.cc, with the sockets as an interface `Sockets`. TaskManager.Lifecycle
-- wraps the sockets so that the calls made to them are recorded.
-- ThreadPool: network/thread_pool.cc. Threads at the same place are counted, each critical section
-- is a function, and ThreadPool.Runs lets callers, workers and the monitor act in any order.
-- Epoller: network/epoller.cc, with epoll as an interface `Epoll` that has the laws of its errors.
-- NetThread: a round of each loop of network/net_thread_pool.cc, with sockets and poller as an
-- interface; NetThread.Drops puts Streams into the sending thread, NetThread.Pool is NetThreadPool.
-- The poller's `ModSocket` without events is its `DelSocket`, so `DisableWrite` takes a socket out of
-- the sending thread's poller, and the `DelSocket` that follows for an invalid one changes nothing.
-- Connections: `NewConnection` of network/server.cc, which gives a connection to both threads and to
-- the client list.
-- ProtoParser: network/proto_parser.cc, and in ProtoParser.Format the formatters of network/common.cc.
-- The program calls neither.
-- Client: `_HandlePacket` of network/client.cc and `DoMsgParse`, with the generated SQL parser as a
-- parameter.
-- Tests: the theorems at concrete inputs.
--
-- Conventions: a `size_t` is a native number reduced modulo 2 ^ 64 where the source can wrap; a
-- string or a vector of bytes is a list of numbers; `none` of an `Option` is a failed `assert` or
-- undefined behaviour such as a read past the end. Allocation succeeds.
-- Fuel: the growth loop of `_AssureSpace` has as many rounds as bytes are asked for, since every
-- round adds a byte at least; the loop of `RoundUp2Power` has 65, after which its variable is 0 for
-- good; the loop of `StringSplit` has as many as there are bytes, since every round removes one; the
-- loop of `DoMsgParse` has one more than there are bytes, since every round consumes one; `AddSocket`
-- and `ModSocket` of the poller have two rounds, since EEXIST and ENOENT do not follow each other.
--
-- Not modelled: the generated SQL parser and lexer, the constructors and the printing of the syntax
-- tree, the system calls that set up sockets, the main loop, the configuration, and libredis, which
-- is a third-party library.
pub mod Common
pub mod UnboundedBuffer
pub mod CircularBuffer
pub mod AsyncBuffer
pub mod ProtocolBuffer
pub mod FieldType
pub mod Packet
pub mod StringUtils
pub mod Meta
pub mod Catalog
pub mod Client
pub mod Connections
pub mod Epoller
pub mod Executor
pub mod NetThread
pub mod ProtoParser
pub mod Receive
pub mod Reply
pub mod Statement
pub mod Store
pub mod Stream
pub mod TaskManager
pub mod ThreadPool
mod Tests
