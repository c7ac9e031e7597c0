-- ===== src/Lib.antt =====
-- A model of the workspace service of the distributed workflow system
-- (services/workspace-service, Go): what its services, its Kafka consumers and its bulk statements
-- do, and the theorems on them.
--
-- The system takes a request over HTTP, checks the caller against the workspace's members, publishes
-- an event to Kafka and shows the change in a Redis cache at once; consumers gather the events in
-- batches, write them to PostgreSQL and send what the database refuses to dead-letter topics.
-- Invitations to a workspace live in the database and are followed by a Temporal workflow.
--
-- How the code corresponds to the model. A Go method is an action (Prelude/Act.antt): a function of
-- the world that returns a value or an error with the world after it. The world is a parameter. The
-- repositories, caches, writers, the clock, the id generator and JSON encoding are records of
-- operations (Domain.antt), since the code takes them as interfaces or from other packages. A call
-- whose error the code drops goes through `ignore`, one whose error it looks at through `attempt`.
-- Log lines and traces are left out.
--
-- The parts, with paths from the repository's root:
--   Prelude, Prelude/Act, Prelude/Keeps: tests, lists, actions, and the lemmas on what an action keeps
--     and returns.
--   Paging, Redis, Http: what components share: the pages by descending id and the cached list of
--     internal/project/service.go and internal/workspace/service.go, the commands of the Redis client
--     with what Redis documents of them, and the page limit, the cursor and the answers of requests
--     (pkg/response).
--   Domain, Apperror: services/workspace-service/internal/domain and pkg/apperror.
--   Bulk: the divide-and-conquer insertion that internal/task/repository.go and
--     internal/user/repository.go repeat four times (BulkCreate and recursiveCreate and their copies),
--     by recursion on the length of the batch, so that it needs no fuel. The batch statement is a
--     parameter, which Task/Repository.antt and User/Repository.antt fill in. Bulk/Cost counts statements.
--   Task/Repository/Bindings: which column each value of a batch statement goes to.
--     Task/Repository/Conflict: the insertion that leaves out a row whose key is taken.
--   Sql: numbered placeholders and argument lists of the batch statements, kept as their parts.
--   Sql/Query, Sql/Scan: the other statements as data, and the calls of sqlx. Sql/Meaning: the rows that
--     such a statement selects from tables, and Sql/Select, Sql/Sorted and Sql/Stored the lemmas on them.
--     Sql/Laws: a database that answers so.
--   Task/Repository/Queries, Workspace/Repository, Project/Repository, User/Repository/Queries: the
--     methods of the four repositories that are one statement (internal/task/repository.go,
--     internal/workspace/repository.go, internal/project/reepository.go, internal/user/repository.go).
--   Kafka/Loop, Kafka/Flush, Kafka/TaskHandlers: the three RunLoops of internal/kafka/task_handler.go.
--     The nested loops are a step function over three phases (waiting, gathering, returned), and the
--     environment is the sequence of results of FetchMessage and of the flush deadline.
--   Kafka/UserHandlers: internal/kafka/user_handlers.go.
--   Kafka/Worker: internal/kafka/worker.go, one reader at a time.
--   Task/Service and its children: internal/task/service.go. The helper steps are the parts of
--     checkAccess, getTaskByID and the methods between two calls, as functions of what the call gave.
--   Task/Journey: the way of a task from CreateTask to its row, over Service, Kafka and Repository.
--   Task/Cache: internal/task/cache.go over a Redis client, with a pipeline as the list of its commands.
--     Task/Cache/SortedSets: what Redis documents of these commands on a sorted set.
--   Workspace/Service, Workspace/Invite, Workspace/Members, Workspace/Lists:
--     internal/workspace/service.go.
--   Workspace/Cache, Workspace/MemberCache, Workspace/RoleCache: internal/workspace/cache.go over a
--     Redis client.
--   Project/Service, Project/Cache: internal/project/service.go and cache.go.
--   Task/Controller, Workspace/Controller, Project/Controller: the handlers of the three controller.go.
--     A handler is a function of the request and of the result of binding its body.
--   Middleware/Auth, Middleware/GlobalError: internal/middleware.
--   Workspace/Temporal: internal/temporal/workflow and internal/temporal/activity.
--   Tests: the theorems at concrete inputs, with a database, a board, caches and requests that run.
--
-- Bounds. Batches have 1000 tasks or 100 users; the theorems on the loop hold for every size. Times
-- are natural numbers, the zero time is 0. A page limit is a natural number; the index expression
-- with the limit 0 is an error, as it panics in the code. No function takes fuel but the client that
-- reads pages, for which the number of rows is enough.
--
-- Not modelled: routes, start-up and monitoring, two reads of internal/task/repository.go without a
-- caller, and the TypeScript services for authentication and notifications. PostgreSQL, Redis, base64,
-- UUIDs, JSON, JWT and gRPC are parameters; what is supposed of them stands in the records Answers,
-- Keeping, Valued, Holds, Faithful, Readable, Zsets, Delivery, Agrees and Coherent. The theorems on
-- lists speak of the latest 10000 workspaces or 1000 projects, which is what one bulk read gives.
pub mod Prelude
pub mod Paging
pub mod Redis
pub mod Http
pub mod Domain
pub mod Apperror
pub mod Bulk
pub mod Sql
pub mod Task
pub mod User
pub mod Kafka
pub mod Workspace
pub mod Project
pub mod Middleware
pub mod Tests
