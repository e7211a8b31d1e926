-- ===== src/Lib.antt =====
-- A model of the game server's core and of the theorems that make it correct.
--
-- The program is a zone of an online game. Clients speak a framed byte protocol to a gateway. The
-- gateway keeps a table of client sessions and a table of return routes, and forwards requests over
-- a second framed protocol to backend servers, of which the scene server is the main one. The scene
-- server keeps the bindings of the players by connection, hands tasks to its workers through bounded
-- queues, and owns the players with their bags. It sends each client the changes of its view, and
-- hands database tasks to channels that keep the results until they are acknowledged. Every
-- connection reads and writes through the same byte buffer.
--
-- The parts, by file (paths from the repository's root):
--   Base/Bytes            the byte loops of Zone/zone_common/base/gatewayPlayer.h and proto.cc, and
--                         the network order of utils.h
--   Base/Buffer           Zone/zone_common/base/buffer.h and buffer.cc: `Buffer` is the storage with
--                         its two indices; each method is a function of its name in snake_case
--   Base/Frame            the loop that DecodeFrame and DecodeClientFrame share: the search for the
--                         magic number, the resynchronisation, and the counting of its rounds
--   Base/ClientFrame      ValidRoleName, EncodeClientFrame and DecodeClientFrame of clientProto.cc
--   Base/ClientControl    the bodies of the control messages, at the end of clientProto.cc
--   Base/GateFrame        MakeHeader, EncodeFrame and DecodeFrame of proto.cc
--   Base/Handshake        the backend handshake of proto.cc
--   Base/GatewayPlayer    gatewayPlayer.h: the coding of a binding, and in Index the class
--                         GatewayClientIndex
--   Gateway/ReturnRoute   Zone/gatewayServer/returnRoute.cc, class ReturnRouteTable
--   Gateway/ClientSession Zone/gatewayServer/clientSession.cc, class ClientSessionTable
--   Scene/Bag             Zone/sceneServer/src-cpp/player/bag.cc, class Bag
--   Scene/Player          player/player.cc, class Player, on top of Scene/Bag
--   Scene/WorkerPending   net/workerPendingTasks.h, class WorkerPendingTasks
--   Scene/Aoi/Grid        service/aoi/aoiGrid.cc, class AoiGrid
--   Scene/Aoi/ViewSet     service/aoi/aoiViewSet.cc, class AoiViewSet: what each client has been
--                         sent; in Snapshot the operations that replace a view in parts
--   Scene/Aoi/ClientView  service/aoi/aoiClientView.cc: one pass for an observer, by a delta or by a
--                         snapshot; in Messages what is sent and what is committed for it
--   Scene/Db/Message      the messages of the database channels, of common/msg.h
--   Scene/Db/PendingTasks db/taskDelivery.cc, class PendingDbTasks; in Scan its rounds under both
--                         scheduling policies
--   Scene/Db/Ledger       db/taskDelivery.cc, class DbResultLedger
--   Scene/Db/Retries      db/transactionRetries.h, class TransactionRetries
-- Common holds the Boolean tests, lists, integers and maps that they share. Below each component's
-- file stand its lemmas, named for what they prove, and its Tests with runs at concrete values.
--
-- A method that changes its object is a function from the object to its result and the changed
-- object. A bool is a Bool, an output argument an Option, an exception a constructor of `Result` or
-- `none` of a constructor function. Numbers are natural numbers; where the source's type can wrap
-- around, `% 2 ^ w` is written out, and theorems on coding ask that fields lie in the ranges of
-- their types. An unordered map is an association list; the source does not use its order, save in
-- the results that are lists, in the entry that a full table drops and in what a round sends first.
-- Locks are held for whole calls, so a history is a list of calls. A failed assert of the buffer,
-- which aborts, is `none`, save in the code that is named as standing behind its assert; so is
-- arithmetic of the grid that leaves int32_t.
--
-- The decoders' loop runs on fuel of 17 rounds: a round that goes on has counted a
-- resynchronisation, of which there are at most 16, so it always returns.
--
-- What lies outside is an argument: what a socket gives or takes, the time, the callback of
-- SubmitScene, and `send` and `valid` of the pending tasks, with sizeof(Task); the view that the
-- replica gives for an observer, the number of its player and the answers of the push sink; and for
-- the database the sender of messages, which answers by what the call has sent before, the numbers
-- of allocateId and the result of a transaction.
-- Of messages and entities the members are kept that the code reads or compares; a push has its
-- message in place of the encoding.
--
-- Not modelled: sockets, pollers, threads and timers; configuration, logging and scripts; the
-- gateway's dispatcher and service registry; the replica and the service of the area of interest;
-- the message bus; and the database's connections and persistence. Probes, diagnostic counters and
-- the identity setters of Player are left out. Signed overflow of the millisecond clock and
-- allocation failures do not occur in the model.
pub mod Common
pub mod Base
pub mod Gateway
pub mod Scene
