-- ===== src/Lib.antt =====
-- go-im-system is a messenger of three services. A gateway (apps/gateway) holds the users'
-- websockets; it gives each chat message its ids, publishes it to the queue upload.all and
-- acknowledges it to the sender. Logic (apps/logic) takes the messages from the queue, stores a
-- row for each receiver and publishes a push to the queue of the gateway that the receiver's
-- route names; it also answers the gateways' RPCs for unread, delivered and read messages. An
-- agent (apps/agent) answers questions to the assistant as a stream of events, which the
-- gateway relays. The services share apps/pkg: ids, payloads, and an RPC library with a
-- registry and a consistent hash ring.
--
-- The modules and what they model:
-- - Prelude, Text: lists, integers, association lists, sorting and decimal printing, used by
--   all others.
-- - Bits, Snowflake: apps/pkg/utils/snowflake.go, the generator of ids and the parser of an id.
-- - Sql: the inserts and updates of a table with a primary key, as gorm runs them.
-- - Wire: the payloads of apps/pkg/mq/rabbitmq.go and how a delivery is settled.
-- - Logic.Messages, Logic.Upload, Logic.Service: apps/logic/models/messages.go,
--   apps/logic/dao/messages.go, apps/logic/service/upload_consumer.go and
--   apps/logic/service/chat_service.go. Logic.Users: user_service.go beside it, with
--   apps/logic/dao/users.go and apps/logic/models/users.go. The modules below Logic that are
--   not named after code (Delivery, Redelivery, FanOut, Unread, Status, Run) hold what is
--   proved of them.
-- - Gateway.Client, Gateway.Pool, Gateway.Chat, Gateway.Downstream, Gateway.Session: client.go,
--   manager.go, chat.go with reliability.go, mq_consumer.go and handler.go of apps/gateway/ws.
-- - Gateway.Relay: apps/agent/handler/chat_sse.go and the relay at the end of handlerAIChat in
--   apps/gateway/ws/chat.go.
-- - Gateway.Receipt: handleAck in apps/gateway/ws/chat.go.
-- - Rpc.Client, Rpc.Dial, Rpc.XClient: apps/pkg/geeRPC/client.go, with the options of server.go
--   beside it, and xclient/xclient.go.
-- - Rpc.Service, Rpc.Server, Rpc.Handling, Rpc.Interceptors: service.go and server.go of
--   apps/pkg/geeRPC, and midware/interceptor.go. The server reads with Rpc.Codec what the
--   client writes.
-- - Rpc.Ring, Rpc.Discovery, Rpc.Registry, Rpc.Codec:
--   apps/pkg/geeRPC/xclient/consistent_hash.go, discovery.go and discovery_gee.go beside it,
--   apps/pkg/geeRPC/registry/registry.go and apps/pkg/geeRPC/codec/protobuf.go.
-- - Agent.RateLimit, Agent.Memory, Agent.SafeTools: apps/agent/middleware/rate_limit.go,
--   apps/agent/memory/memory.go and apps/agent/middleware/safe_agent.go.
-- - Agent.Schedule: task/schedule_msg.go, dao/scheduled_messages.go,
--   models/scheduled_messages.go and tools/schedule_message.go of apps/agent.
-- - Agent.Engine: apps/agent/engine/engine.go, with what apps/agent/handler/chat_sse.go stores.
-- - Agent.History, Config, Broker, Gateway.UserApi: the history search with
--   apps/pkg/utils/resolveTime.go, apps/pkg/config/config.go with the choice of the key in
--   apps/agent/engine/graph.go, apps/pkg/mq/rabbitmq.go with the consumers' start, and
--   apps/gateway/api/user_api/user_handler.go with apps/gateway/rpcclient/client.go.
-- - Rpc.Codec.Values: apps/pkg/geeRPC/codec/gob.go and json.go; Rpc.Codec has the interface of
--   codec/codec.go, which the server and the receiving loop of the client take.
-- - Rpc.RoundTrip: a request and its answer over the wire, between apps/pkg/geeRPC/client.go
--   and server.go.
-- - Logic.Groups: apps/logic/dao/groups.go with its models.
-- - Agent.Trace, Gateway.Router: apps/agent/callback/trace_logger.go and
--   apps/gateway/router/router.go.
-- - Startup: apps/gateway/main.go, apps/logic/main.go and apps/agent/main.go, as the events up
--   to serving or exiting.
-- - Auth: apps/pkg/utils/jwt.go and crypto.go, and the check of the token in
--   apps/gateway/ws/handler.go; it gives Logic.Users its accounts.
-- - Journey: the handlers of a single chat from its sender to its receiver, put together.
-- - Tests: concrete runs.
--
-- How the code is read: a Go function is a function of the same name in lower case with
-- underscores. State is passed explicitly: the table of messages, Redis' routes and counters,
-- the queues and the connections, which are objects under handles because the map and the pumps
-- share them. What other software does is an argument: whether a statement, a publication or a
-- call fails, which ready case a select takes, what the network takes, what the agent answers.
-- JSON is an interface whose law is that reading gives back what was written. A clock is a list
-- of its readings; a wait that the list does not end gives none, and a theorem that a call
-- returns says which reading is enough. Ids are integers; those of the Snowflake are bounded by
-- the fields' widths, stated where they matter. The tables are those that the models declare:
-- gorm leaves a zero id to the database, which then gives one, a unique index refuses a second
-- row, and a statement that names another column fails. Redis' scores are doubles, an interface
-- with the laws that the limiter relies on. Goroutines are steps that are run in any order. No
-- fuel is used except in decimal printing, where it is above the number of digits, and in the
-- RPC server's reading loop, which need not end: there it is the number of rounds; over the
-- protobuf codec the theorem is for each number, and over gob or JSON one round more than there
-- are requests is enough.
--
-- Not modelled: logging, generated code, the RPC library's listener and debug page, the set-up
-- of the eino, gorm, go-redis and zap libraries, and the commented-out retry queue of
-- apps/gateway/ws/reliability.go.
pub mod Prelude
pub mod Text
pub mod Bits
pub mod Snowflake
pub mod Sql
pub mod Wire
pub mod Broker
pub mod Config
pub mod Logic
pub mod Gateway
pub mod Rpc
pub mod Agent
pub mod Auth
pub mod Startup
pub mod Journey
pub mod Tests
