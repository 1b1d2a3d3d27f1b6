-- ===== src/Lib.antt =====
-- Squid Storage: a replicated file store of one leading server, data nodes that hold the files,
-- clients that cache them, and standby servers that take over when the leader is lost.
--
-- The parts and the code they model:
--   Prelude: texts as lists of bytes, the C++ `int`, and `std::map` as an association list in the
--     order of its keys. Prelude/Text: lines, words and numbers, as the C++ streams read and write
--     them.
--   Protocol/Opcode, Frame, Message, Format: common/src/squidprotocol/squidProtocolFormatter.cpp and
--     .hpp. `build_frame`, `stamp_seq` and `parse_message` are buildFrame, stampSeq and parseMessage;
--     an exception is a value of `Error`.
--   Filesystem/SyncPlanner: common/src/filesystem/syncplanner.hpp, planSync.
--   Filesystem/VersionFile: common/src/filesystem/filemanager.cpp, the text of the version file.
--   Filesystem/StateFile: server/src/state_manager.hpp, the text of the server's version file.
--   Transport/Channel: the loops over readBytes and writeBytes in
--     common/src/squidprotocol/squidprotocol.cpp and common/src/filesystem/filetransfer.cpp. What the
--     network delivers, and how many bytes it takes in each call, is data.
--   Transport/Frames, Order: sendFrame, receiveFrame and receiveAndParse of squidprotocol.cpp, as
--     `send_frame`, `receive_frame` and `receive_and_parse` on a `Connection`.
--   Transport/Transfer: filetransfer.cpp, files in chunks.
--   DataNode: datanode/src/datanode.cpp and requestDispatcher of squidprotocol.cpp, as `dispatch` on a
--     `Node`. What std::filesystem does is its argument `FileSystem`.
--   Client: client/src/client.cpp; Client/Calls: the operations of squidprotocol.cpp that it calls.
--   Server/State: the state that server/src/server.hpp shares between the managers. `Net` is what the
--     sessions of server/src/replication_manager.cpp answer during one operation, and `Effect` is what
--     is posted without waiting for an answer.
--   Server/Locks: server/src/lock_manager.cpp and common/src/filesystem/filelock.cpp.
--   Server/Replication: server/src/replication_manager.cpp, the writes, the read, the registration of a
--     data node and the version map; Server/Replication/Rebalance: the same file on data nodes that are
--     lost, and server/src/heartbeat_manager.cpp.
--   Server/Requests: handleClientRequest of server/src/server.cpp, with the answers to the client;
--     Server/Requests/Locking: what each request does to the locks. Server/Accept: handleAccept of the
--     same file, for data nodes and clients.
--   Standby/Cluster: common/src/config/ClusterConfig.hpp and the election in
--     server/src/replica_watcher.cpp.
--   Standby/Snapshot, Watcher: the frames that a standby server receives, in the same file, and the
--     text of a snapshot in squidProtocolFormatter.cpp; Standby/Watcher/Rounds: a round of watchLoop.
--   Standby/Mirror: server/src/standby_replica_manager.cpp, the deltas from a primary's writes through
--     the frames of Protocol to the maps of Standby/Watcher.
--
-- How they interact: a request of a client runs one operation of Server/Replication or Server/Locks on
-- the shared state; its effects are messages, and the deltas among them reach Standby/Watcher as frames
-- of Protocol. The election decides whether a standby server promotes itself. Frames travel over
-- Transport, and a file follows its request or push on the same connection, which DataNode and Client
-- read from and write to.
--
-- Bounds: a byte is a number below 256, and 16- and 32-bit values wrap as the code's do. Versions are
-- integers, and the increment of a version is taken not to overflow. Times are numbers that come as
-- arguments. The loops of the code that read from the network or split a number run on fuel: a block
-- of `n` bytes and a file of `n` bytes take at most `n` rounds, as each round moves a byte at least; a
-- call of `receive_and_parse` takes at most one round more than there are bytes in the stream; an
-- `int` has at most 10 digits. The loop of syncStatus, which pushes can keep going, has the number of
-- its rounds as an argument. All other loops recur on a list or on a count.
--
-- Not modelled: sockets, threads and mutexes (an operation runs whole, but the two halves of the expiry
-- check, between which the code gives up its mutex, are apart); a connection without a channel; the
-- text of the server's holder file (a map there; its version file is a text); a failure to write a
-- file; the exception of an answer that cannot be built, which `send_built` leaves out;
-- the handshakes and reconnecting of common/src/peer/peer.cpp, the queue of a session, the FUSE layer
-- and the main programs, which are glue around the operations that are modelled.
pub mod Prelude
pub mod Filesystem
pub mod Protocol
pub mod Server
pub mod Transport
pub mod DataNode
pub mod Client
pub mod Standby
