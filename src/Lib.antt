-- ===== src/Lib.antt =====
-- Verification of DdingGameServer: the servers of a game and the library that they share.
--
-- The program. A game server accepts clients over registered I/O (DdingGameServer/RIO_Core,
-- RIOServer and RIOSession), keeps player characters, creatures, zones and objects
-- (GameServer/GameServer), and talks to a database server (DBServer/DBServer) and to an
-- authentication server (AuthServer/AuthServer) over channels of its own (MultiLanClient). Jobs for
-- the database go in batches with a key (DBJob), and may wait for a time (DBJobLazyRunner).
--
-- The files.
-- - Prelude: numbers and lists with Boolean tests, maps as association lists (Map), sorted sets
--   (SortedSet), signed integers (Int), machine words (Word) and texts (Text).
-- - Rio: RIOServer.cpp and RIOSession.cpp. Types has the state: sessions by address, the map from
--   session ids to addresses, and the requests that the kernel holds. Release, Send, Recv, Accept and
--   Worker have one definition per function of the source, under its name: SendPost is send_post,
--   MakeSendStream is make_send_stream, RecvCompleted is recv_completed, GetPayloadLength is
--   get_payload_length, MakeNewSession is make_new_session and the body of Worker is work. Steps is the
--   step relation over them. Counting relates ioCount to the requests of the kernel, and Recv/Streams
--   the bytes of a buffer to the packets in it. Broadcast is Broadcaster.cpp. Start is StartServer with
--   the option file, RunThreads with the first lines of Worker (Threads), SleepRemainingFrameTime
--   (Frames), the loop of Accepter (Accepter), ReserveRIOBuffer (Buffers), and StopServer with
--   the end of main (Stop).
-- - Core: Timer.cpp (Timers, and its thread with the destructor in Timers/Running), DBJob.cpp with
--   DBJobUtil.cpp and AssemblePacket (DbJobs), Protocol.h, PacketManager.cpp,
--   OnRecvPacket and SPReplyHandle (Packets), the classes of Protocol.h with DBHelper.cpp and what
--   DBServer.cpp reads of them (Packets/Classes), Logger.cpp (Logger) and DeadlockChecker.cpp
--   (Deadlock).
-- - LanClient: MultiLanClient.cpp, with the choice of a channel (Channels), its sending (Post), the
--   order of what it sends (Order), the receiving half of Worker (Receive), Reconnecter (Reconnect,
--   with the outer loop in Rounds), Start with the option file (Start), and Stop with the end of
--   Worker (Stop).
-- - GameServer: Creature.cpp, PCManager.cpp (PcManager), PCDBLoader.cpp with PCPacketHandler.cpp
--   (PcLoading), PCLogic.cpp with DBJobLazyRunner.cpp (LazyRunners),
--   GameObjectManager.cpp and ZoneManager.cpp (Objects).
-- - DbServer: PakcetHandler.cpp (Batches, Waiting), the tables of types of ODBCUtil.cpp and
--   TypeInfo.cpp (Odbc), TypeInfo.h (Classes), StoredProcedure.h and ProcedureType.h with the macros
--   that register their members (Procedures), ODBCUtil.h (SqlTypes), ODBCMetaData.cpp
--   (ProcedureNames, Metadata), and of ODBCConnector.h and ODBCConnector.cpp the calls of procedures
--   and their results (Calls), the connections (Connections), and InitDB and DisconnectDB with
--   main.cpp (Lifecycle).
-- - AuthServer: PacketHandler.cpp, OnGameServerDisconnected, and AuthClient.cpp of the game server
--   (Registry), the calls of AuthLanServer in AuthServer.cpp (Sessions), AuthDBConnector.cpp with
--   StartAuthServer and main.cpp (DbConnector), and AuthDBThread.cpp (DbThread).
-- - ScriptToObject: DataUtil.h and JsonUtil.h of ScriptToObject/ScriptToObject, JsonUtil.cpp with Config.h
--   (Scripts), and ZoneData.h with FromJsonFunction.cpp (Zones).
-- - Tests: concrete states and libraries for the theorems.
--
-- What stands outside. CRingbuffer, CLockFreeQueue, NetBuffer and CSerializationBuf come from
-- libraries that are not in the repository: RioLib, LanLib, NetLib and PoolLib are records of their
-- operations with the documented behaviour that the code relies on: queues are first in, first out.
-- JsonLib has the members of a JSON value and its conversions.
-- The answers of the operating system and of ODBC are arguments (Attempt, Winsock, Driver, Answers,
-- Connects, Catalog, Round), and so are the parser of option files, the JSON parser, the names that
-- the compiler gives to types and the constructors of data objects. What OnRecvPacket does to its
-- session is the list of its sends and disconnects (Action), and whether an exception leaves it.
--
-- Bounds and fuel. SendPost runs on fuel 2, since a second round finds the mode that the first one
-- has set; the loop of RecvCompleted has one unit more than the bytes that are left, and each packet
-- takes its header off them. The loops of the other channel's receive, of DBJobHandle and of the
-- logger have one unit more than the bytes, the jobs and the lines that there are. Machine integers
-- wrap as in the source; the sum of hit points, whose overflow is undefined, is none there. Session
-- ids and keys are used before they come round.
--
-- Calls are modelled from their beginning to their end, but for the first lines of the workers and
-- the timers' thread, which go line by line: the interleaving of two calls on one session and the
-- locks are not modelled, and neither are the drivers' calls, the MySQL client of DBConnector.cpp,
-- which nothing uses, the empty classes of the game's world, and the tools beside the servers.
pub mod Prelude
pub mod AuthServer
pub mod Core
pub mod DbServer
pub mod GameServer
pub mod LanClient
pub mod Rio
pub mod ScriptToObject
pub mod Tests
