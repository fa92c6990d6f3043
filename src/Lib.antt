-- ===== src/Lib.antt =====
-- A model of the external task worker of the SENERGY platform: it fetches the tasks of a Camunda
-- engine, turns each into messages to devices, gathers the responses and completes the task.
--
-- The parts, and where they are modelled:
--   * Model, Messages: the data types of lib/devicerepository/model and lib/messages. JSON values are
--     the data type Value; a pointer that may be nil is an Option; an int is a ℤ, with wrap-around
--     written out where the code adds to it (succ64).
--   * World: what one call reads and changes, namely the key-value store, the clock, and the calls that leave
--     the worker, in order. Fallible code returns Result; `err_not_fount` is ErrNotFount of the database.
--   * DeviceGroups (lib/devicegroups): a task is a group of sub-tasks, one for each fitting service of each device. Storage and
--     Db are storage.go and localdb.go, Services and SubTasks are the choice of the services and
--     the making of the sub-tasks, Results is getTaskResults, isFinished, clearTaskData and
--     ProcessResponse, Sequential is sequential.go, and Commands is ProcessCommand with the three
--     schedulers. The files below it with the names Reliable, Collect, Responses, Completion,
--     Serial, RoundRobin, Sending, Tries, Spent, Filtered and Attempts hold proofs. Go's sort.Slice may order equal
--     elements either way beyond twelve of them; the model keeps their order.
--   * Worker (lib/worker.go): ExecuteTaskBatch, ExecuteTask, ExecuteCommand, handleTaskResponse and
--     HandleTaskResponse, with the health check and the error handler. It calls DeviceGroups, and the engine and
--     the producer are parameters whose answers may depend on all calls so far.
--   * Protocols, Requests, Event (lib/protocol.go, lib/command.go, lib/event.go): the messages to
--     devices, the command of a task, and the requests for last event values. The marshaller is a parameter.
--     Requests/SetVarOnPath is setVarOnPath of lib/worker.go, which places parameters in a command's input.
--   * Timescale (lib/timescale/timescale.go): the query for last values and the cast of its answer, with
--     Go's panic at an index out of range as a value. The order in which Go ranges over the maps of CastRequest
--     is a parameter.
--   * Camunda (lib/camunda): TopicMutex is topicmutex.go as a step relation on goroutines, Completion
--     is CompleteTask with its incidents, Retry is the retry rule, Fetch is what fetches the tasks of a shard with
--     UnlockTask and SetRetry, and Shards is lib/camunda/shards: Tables
--     has the SQL statements on the two tables, Database the transactions and the cache of shards.go.
--   * DeviceRepository (lib/devicerepository/devicerepository.go): the client with its cache, which stands
--     for the repository that DeviceGroups takes as a parameter.
--   * Com (lib/com): Switch is which consumers run and the choice of a producer, Responses the router of
--     HTTP responses, Reader the loop that reads a topic of Kafka, and Producers how a message leaves.
--   * Config (util/config.go): LoadConfig with the environment; the worker reads the scheduler from it.
--
-- Loops over lists are structural. The ten rounds of a database access are recursion on a number.
-- ExecuteTask, ExecuteCommand and handleTaskResponse call each other when a last event value answers
-- a sub-task, so ExecuteTask has fuel, the depth of these calls. Under the schedulers that send all
-- sub-tasks at once one level is enough; under the serial ones each level tries a sub-task again.
--
-- Database, JSON codecs, engine, producer, device repository, SQL server, marshaller and caches are
-- parameters, and so is what Go computes with floats. What the proofs rely on is named: IsReliable (a
-- database that does not fail and keeps what was written), IsCodec (JSON gives back what was encoded),
-- IsCache and IsUserCache (a stored value is used, a fetched one may be stored, a removed one is gone),
-- IsWalk (a range over a map visits each entry once).
-- Which calls of the SQL server fail is arbitrary; a Commit that fails has written nothing.
--
-- Not modelled: the clients of Kafka and HTTP themselves, metrics, logging, tokens, the HTTP requests
-- to timescale and to the engine, the invalidation of caches, and the start in main.go. Goroutines of a
-- batch run one after the other, in the order of their delays within one activity.

pub mod Base
pub mod Result
pub mod Model
pub mod Messages
pub mod World
pub mod DeviceGroups
pub mod Tests
pub mod Event
pub mod Protocols
pub mod Requests
pub mod DeviceRepository
pub mod Com
pub mod Config
pub mod Worker
pub mod Camunda
pub mod Timescale
