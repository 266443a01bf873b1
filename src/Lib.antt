-- ===== src/Lib.antt =====
-- PPChat is the server side of a chat system in Go: gateways hold the websockets of users, message
-- services give each conversation its sequence numbers, and Redis, MongoDB, Kafka and NATS stand
-- between them. This library models the parts that carry the program's own logic.
--
-- Prelude holds what the other modules share: Boolean tests on native numbers, the decision on texts,
-- lists, and Go's maps as lists of entries, in the order in which a range visits them. Every lemma on
-- maps is about any such list, so it holds for every order of the ranges.
--
-- Chat.ConnManager is service/chat/conn_manager.go, the sockets of one gateway. State has the types
-- (ManagerConf, WsConn, ConnManager) and the parts that methods share; Index the nested map byUser;
-- Ops the methods Add, Remove, AddUnauth, BindUser, AddAuthorized, Heartbeat and
-- ensureRoomForUserLocked; Removal has RemoveBySnow, KickAllUnauth, sweepOnce and Close; Reads has
-- Get, GetAll, GetClient, ListUserConns and the sends. A method is a function of the state because
-- the mutex makes it one step. A *WsConn is an address in a heap, since bySnow and byUser share
-- it. Linked, Invariant, Room, Adding, Removing and Users carry the invariant through the methods,
-- History has the calls as a step relation, Capacity the limit per user, Expiry the sweeper, and
-- Sharing the entries that outlive their connection.
--
-- Seq is module/chat/seq: the DAO of db.go (Dao) on an abstract MongoDB (Mongo), the Lua scripts of
-- seq.go on an abstract Redis (Redis), and Malloc (Allocator) as a machine whose steps are its calls
-- to the servers; each can fail before or after the server has carried it out. Allocator.World has any
-- number of such calls in any order, with keys that expire and the other DAO methods in between;
-- Weights, Moves, Grants and Unique follow one number through it, Progress runs one call alone.
--
-- Ids is tools/ids/snowid.go, the snowflake generator as a function of the readings of its clock; Bits
-- has the sum of numbers whose digits do not overlap, Order one call, Unique the results.
--
-- Nats.Idem is service/natsx/idem.go: the store of seen message ids (MemIdem) and the middleware
-- (deliver). Once is about the store, Redelivery about a message that comes again.
--
-- Storage.Offline is service/storage/redis_messages.go, less DMKey and AppendStream: the offline queue
-- on an abstract Redis list; Fetch is about what a fetch returns and leaves, Among about messages that
-- come between its commands.
--
-- Storage.Online is service/storage/online.go: Keys has the names of the keys, Scripts the Lua scripts,
-- Store the methods, each a function of the keys in Redis and of the reading of the clock. RedisIndex
-- is what they rely on in Redis, an interface with its laws; a method whose call to Redis fails
-- returns that error, which is not modelled. Sweeping is about the scripts, Lifetime about a session
-- from its authorization to its end, Gateway about the name of the node; Sample fills the interface.
--
-- Registry.Balancer is service/registry/registry.go, the smooth weighted round robin on ints of 64 bits
-- (Prelude.Int); Items has the sums over the items, Round one call, Balanced the state between two,
-- Updated the state after an update, Fair a full turn, Choice what a call returns in any state.
--
-- Registry.Manager is service/registry/manager.go: the states of services, the loops that watch them
-- as a list of contexts, and Pick; Methods has the methods that a node registers. The registry is a
-- client on a state of its own. Watched is about one call, Reachable about any calls, Picked about
-- Pick. The start and the stop of the process (BootBlocking) and
-- the timers are left out.
--
-- ChatBox.Projector is module/chatBox/store/projector.go, on collections of documents that are an
-- interface (Slots has their laws put to use): Published is about the timeline that the customer sees,
-- Redelivered about an event that comes twice.
--
-- Users is module/user/service/user.go and tools/security/jwt.go. Jwt has the tokens, on the packages
-- jwt and sha256 as parameters, and Tokens what they carry; Store what the code relies on in MongoDB
-- and Redis, whose calls can fail; Requests the filters, commands and documents of the calls; Sessions
-- the functions Login, ReLoginArchiveAndReplace, Verify, GetUserById and GetUserByToken. Spec has
-- their runs and what these promise of a map from devices to sessions, Docs and Cached relate that map
-- to the collection and the keys, Checked and Logged are about one call and Refined about a run; Sound
-- and Accepted are about runs in which calls fail. Subject is about the user of a token, LockedOut
-- about a query that fails; Sample fills the interfaces. Times are milliseconds, to which MongoDB cuts
-- them; each reading of the clock in a call is an argument.
--
-- Messages is module/chat/service/message.go and the documents of module/chat/model/msg.go. Wire has
-- the messages of the wire with the fields that are read, Model the documents, Copy the helpers (also
-- those of tools/common.go), Cases the cases of the switch on the content type, Build the whole of
-- BuildMessageModelFromPB; Elements and Shape are about the elements of its results, Preview about the
-- length of a preview, Stored about InsertMessage and GetMessageByServerMsgID.
--
-- Chat.Relay is LoopRelayData of service/chat/router.go, the loop that writes frames to the sockets of
-- Chat.ConnManager, on a list of frames: Sent is about one frame, Stops and Consistent
-- about the loop. Relay.Router is RunToRouter with the writer of loopRouter.
--
-- Rpc is service/rpc/client_manager.go: the connection of the gateway control service and the
-- goroutines that keep it up, as a step relation; Reachable is about any steps.
--
-- Chat.Registry is service/chat/registry.go, the older index of connections; Removed is about remove.
--
-- Errs is tools/errs/coderr.go: the relation of error codes and the errors that use it; Relation is
-- about Add and Is. The stack traces are left out.
--
-- Kafka.Topics is the topic names of service/dispatcher/kafka (config.go, router.go, topic_ensure.go), on
-- parameters for fmt, strings and crc32; Generated is about the list of names and the choice from it.
-- Kafka.Ensure is handler.go, handlers_bootstrap.go and EnsureTopics of topic_ensure.go, on a client of
-- the cluster that is an interface; Exists is about the topics that are there afterwards.
--
-- Numbers are not bounded, but for the weights and currents of Registry.Balancer and the replication
-- factors of Kafka.Ensure, which wrap around: the other int64 and time values stay far below 2 ^ 63. Where
-- the code treats a value that is not positive alike, the model's value is 0; the numbers of the methods
-- of DAO, MaxRetry and the counts of topics are those that are not negative. No function runs on fuel
-- but run_alone, whose bound is the number of server calls, and four are proved to be enough.
--
-- Not modelled: the sockets, the tickers and goroutines that only call the methods above; HTTP, gRPC,
-- NATS and Kafka clients, and the message handlers, which call them; the single MongoDB commands on the
-- documents of conversations, groups and the chat box; the constructors of frames, which copy fields
-- into generated types; the dispatcher, a table of handlers; the wrapping of errors with stack traces,
-- which another package makes; the configuration, and the code generated from the .proto files.
pub mod Prelude
pub mod Chat
pub mod Users
pub mod Messages
pub mod ChatBox
pub mod Seq
pub mod Ids
pub mod Nats
pub mod Registry
pub mod Storage
pub mod Errs
pub mod Kafka
pub mod Rpc
