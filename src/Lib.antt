-- ===== src/Lib.antt =====
-- Edgehog Device Runtime: a model of its core, with the theorems that make it correct.
--
-- The runtime runs on a device. It receives events from Astarte, hands each to the part that it
-- concerns, and sends back what became of it. These parts are modelled:
--
--   * Ota: over-the-air updates of the system image. A handler (src/ota/ota_handler.rs) takes the
--     requests and keeps a flag and a cancellation token. It sends each update to an actor
--     (src/ota/mod.rs) that downloads the bundle, has it installed, stores the booted slot, reboots,
--     and compares the slots after the reboot. Each status is published as an event
--     (`OtaStatus::as_event`).
--   * Containers: deployments of containers (edgehog-device-runtime-containers/src). The service
--     (service/mod.rs) starts, stops, deletes and updates a deployment through the resources
--     (resource/mod.rs) that it needs, and reports by events and by security notifications. A
--     request is stored first (store/) and then handed to the service (service/events.rs). The port
--     bindings of a container are parsed by requests/container.rs.
--   * Jobs: the queue of jobs in the database (src/jobs), which outlives a restart.
--   * Transfer: downloads and uploads of files (src/file_transfer). A receiver (src/controller/actor.rs)
--     puts each valid request in the queue and wakes a worker, which takes the requests out of the queue,
--     runs them, and responds with a code.
--   * Forwarder: remote terminals. A session (src/forwarder.rs) publishes its state and runs a
--     connections manager (edgehog-device-runtime-forwarder/src), which passes the messages of a
--     WebSocket to Edgehog on to tasks of its own and back.
--   * Telemetry: the periodic tasks (src/telemetry). An actor keeps the configuration of each
--     interface, changes it by events, keeps what was changed in a file, and spawns and cancels a task.
--   * Io: the writer that refuses what exceeds a limit (src/io/limit.rs), and the one that computes a
--     digest (src/io/digest.rs).
--   * Led: the blinking of a LED (src/led_behavior.rs).
--
-- The files:
--   Base.antt         the names that the modules share; Base/Trace.antt the monad, Base/Plans.antt
--                     the calls that code makes in order, Base/Int.antt the numbers below zero,
--                     Base/Lists.antt and Base/Tests.antt lists and decisions, Base/State.antt code over
--                     a state that may err, Base/Assoc.antt maps, Base/Text.antt texts and numbers in decimal form
--   Ota/Status.antt   the data of src/ota/mod.rs: `OtaStatus`, `OtaError`, `OtaId`, `PersistentState`
--   Ota/Event.antt    `as_event` and the messages of src/ota/ota_handler.rs
--   Ota/Env.antt      the calls of the actor and what answers them (`SystemUpdate`, the repository,
--                     files, HTTP, the publisher)
--   Ota/Wget.antt     `wget`; Wget/Body.antt what it saves, Wget/Cost.antt what it calls
--   Ota/Update.antt   `download`, `deploy`, `reboot`, `check_reboot`; Update/Slots.antt the slots,
--                     Update/Reports.antt the progress reports, Update/Retry.antt the retries
--   Ota/Machine.antt  `next`, `handle_ota_update`, `init`; Machine/Diagram.antt the diagram of the
--                     statuses, Machine/Termination.antt, Machine/Installs.antt, Machine/Restart.antt
--   Ota/Handler.antt  `OtaHandler` of src/ota/ota_handler.rs and `OtaRequest` of src/ota/event.rs;
--                     Handler/Queue.antt and Handler/Tokens.antt runs of its events
--   Containers/Resource.antt     the data, and `up`, `down` and `refresh` of resource/mod.rs
--   Containers/Deployments.antt  `start_deployment`, `stop_deployment`, `delete_deployment`,
--                     `update_deployment` and `restart_failed` of service/mod.rs
--   Containers/Service.antt      the commands, `on_event` and `initialize` of service/mod.rs;
--                     Service/Order.antt the order of the work, Service/Started.antt,
--                     Service/Paid.antt what is created and deleted on the device,
--                     Service/Quiet.antt, Service/Answers.antt and Service/Updates.antt what is
--                     reported
--   Containers/EnvFile.antt      the parser and reader of resource/env_file/parser.rs;
--                     EnvFile/Lines.antt a line, EnvFile/Reader.antt a file
--   Containers/Ports.antt        `parse_port_binding` of requests/container.rs; Ports/RoundTrip.antt the
--                     form that is printed, Ports/Sound.antt what is parsed
--   Containers/Store.antt        the requests that create rows, of store/ of
--                     edgehog-device-runtime-containers/src; Store/Queries.antt the queries and the
--                     status updates of store/deployment.rs, Store/Requests.antt the requests of
--                     requests/mod.rs; Store/Settled.antt the invariant (Settled/Rows.antt rows,
--                     Settled/Invariant.antt, Settled/Containers.antt), Store/Complete.antt,
--                     Store/Deletes.antt and Store/Updates.antt what the queries find and change
--   Containers/Handle.antt       `ServiceHandle` of service/events.rs
--   Containers/Plan.antt         the plans of Base/Plans.antt for the service's calls
--   Jobs.antt         the operations of src/jobs/mod.rs on a table, `Unix::new` of
--                     src/jobs/timestamp.rs, and the numbers of statuses and types of
--                     edgehog-device-runtime-store/src/models/job; Jobs/Keys.antt the primary key,
--                     Jobs/Pick.antt and Jobs/Drain.antt the job that is taken, Jobs/Numbers.antt
--   Transfer/Receiver.antt   `Persisted::handle` of src/controller/actor.rs for the `Receiver` of
--                     src/file_transfer/mod.rs; Receiver/Hands.antt the way of a request to the
--                     worker
--   Transfer/Worker.antt     `jobs`, `handle`, `job_done` and `job_error` of src/file_transfer/mod.rs;
--                     Worker/Handled.antt one transfer, Worker/Loop.antt the loop, Worker/Unsent.antt a
--                     response that is not sent
--   Transfer/Errno.antt      the codes of src/file_transfer/errno.rs
--   Transfer/Http.antt       the requests of a download, src/file_transfer/http/mod.rs;
--                     Http/Headers.antt its headers, Http/Download.antt its result
--   Transfer/Store.antt      `download_store`, `download_filesystem` and `download_to_write_handle` of
--                     src/file_transfer/mod.rs; Store/Stored.antt what they leave
--   Transfer/Space.antt      the space that is reserved (src/file_transfer/config.rs and `Fs` of
--                     src/file_transfer/file_system/store); Space/Reserved.antt what stays free
--   Transfer/Storage.antt    the cleanup of src/file_transfer/file_system/store/mod.rs;
--                     Storage/Cleaned.antt what it leaves
--   Forwarder.antt    the data of edgehog-device-runtime-forwarder/src
--   Forwarder/Collection.antt   collection.rs; Collection/Keeps.antt the connections that are open
--   Forwarder/Manager.antt      the loop of connections_manager.rs; Manager/Channels.antt the channels
--                     between the manager and a task
--   Forwarder/Messages.antt     the conversions of messages.rs; Messages/RoundTrip.antt there and back
--   Forwarder/Session.antt      `handle_session` and `connect` of src/forwarder.rs;
--                     Session/Reports.antt what is published
--   Telemetry.antt    the interfaces of src/telemetry/stats/mod.rs and the configuration of
--                     src/telemetry/mod.rs
--   Telemetry/Tasks.antt     `TelemetryTasks` of src/telemetry/mod.rs; Tasks/Owned.antt the tokens,
--                     Tasks/Spawns.antt the task that is spawned
--   Telemetry/Actor.antt     the actor of src/telemetry/mod.rs, its events (src/telemetry/event.rs) and
--                     its file (src/repository/file_state_repository.rs); Actor/Runs.antt the tasks
--                     that run, Actor/Restart the file: Restart/Overlay.antt its entries,
--                     Restart/Defaults.antt the defaults, Restart/Resumes.antt the next start
--   Io/Limit.antt     `Limit` of src/io/limit.rs; Limit/Writes.antt sequences of writes
--   Io/Digest.antt    `Digest` of src/io/digest.rs; Digest/Resumed.antt a file that is written on
--   Led.antt          `blink` and the patterns of src/led_behavior.rs; Led/Ends.antt its end
--   Files named Tests.antt      the theorems at concrete inputs, and runs
--
-- How code is modelled. Code that awaits is a function of the history of the calls made so far, the
-- latest first, to a result and a longer history (`Exec`). A call of a library, of the system or of a
-- database is a value of the type `Call`. An `Env` answers it by a function of the history, so that an
-- answer can change from one call to the next in any way.
-- A send whose result is only logged is a call without an answer. An early return by an error is `err`.
--   * `cancel.run_until_cancelled(self.next())`: at each await the environment says whether the token
--     is cancelled, and the step ends there if it is. A call that has begun is then recorded.
--   * The loop of `handle_ota_update` is recursion on fuel. The bounds used are eight rounds for an
--     update and three for what follows a reboot: a round takes the status to the next of `Init`,
--     `Acknowledged`, `Downloading`, `Deploying`, `Deployed`, `Rebooting`, an end and `Idle`.
--     `wait_reboot` never returns, which is a result of its own.
--   * `f64` is a parameter: bit patterns with the operations that `wget` uses, exact on whole numbers
--     up to 2^53 where a theorem says so. `i32` wraps, as in a release build.
--   * A body or a signal of progress is a finite list. A stream that never ends is not modelled.
--   * A UUID is a number, and an error of a library an opaque number. The bounded channel
--     of the updates is a list without a bound: a send waits until there is room, which changes no order.
--     A send to a task of the forwarder may wait for ever: the round of the manager does not end then.
--   * The sets of a deployment are lists in the order in which they are iterated. The containers are
--     listed by index, as `BTreeMap::values` gives them.
--   * In the store of the containers the tables that join a container with its volumes, networks and so
--     on are one list of links, and so are the tables of what is missing. The error
--     of a request whose fields cannot be converted, or for which the database fails, is a parameter.
--   * A table of the database is a list of rows in some order; each statement or transaction is one
--     operation on it, and of rows with the same rank the first is taken, which the database leaves open.
--     In the worker and the receiver an access is a call that is answered, and one that fails changes
--     nothing. What a job's data is encoded to is a parameter.
--   * The worker's loop is recursion on fuel. One round more than there are pending transfers is enough,
--     since a round takes one of them out and adds none. A request that arrives meanwhile wakes the
--     worker again and starts another run.
--   * The loop of the connections manager is recursion on the list of the events that it selects. The
--     loop of a session, which can go on as long as connections are lost, is recursion on fuel, and what
--     is stated of it holds for any fuel.
--   * A task is known by the number of calls before it was opened, and whether it is finished is
--     answered from the history. The tasks are asked once for a message, before the terminated ones are
--     removed, and again where an id is in use. The channels between manager and task are counts of
--     messages, and the moves of the two sides a step relation.
--   * The blinking of a LED is recursion on fuel, with the time in the state: 35 rounds are enough, since
--     each takes 1.8 seconds at least and none begins after 60 seconds.
--   * `u64` and `u16` are numbers with their bound; the subtraction of `Limit` wraps around as in a
--     release build.
--   * The directory of stored files is a list of names in UTF-8, and what `next_entry` answers a finite
--     list. The sizes of a device are read once for a check, and a remainder by 0 is a panic.
--   * A hash map is an association list in the order in which it is iterated (Base/Assoc.antt). A token
--     of a telemetry task is the number of tokens made before it. Which features the program has, and
--     whether it has a monitor of the containers, decides which spawned tasks run (src/telemetry/sender.rs). What the JSON library and the file
--     system do is a parameter.
--   * An environment file is a list of code points that is valid UTF-8 and is read without an error. A
--     round of `validate` takes a character at least, so that its length bounds the fuel.
--
-- Not modelled: the Docker client, the status and the deletion of the rows of containers and resources,
-- the fields of a container beside its resources, and what each kind of resource does
-- to create, delete, check and publish itself, which the environment answers. Nor is what a transfer reads
-- and writes (files, streams and archives), the parsing of Astarte events, what
-- the forwarder converts a request or a response to, and its own HTTP and WebSocket connections, which the
-- environment answers as well. Uploads, downloads to a stream, what a
-- telemetry task collects, the LED's actor, storage, the controller and the programs
-- beside the runtime are left out. Logging and `Display` are left out, but for the security
-- notifications.
pub mod Base
pub mod Containers
pub mod Forwarder
pub mod Io
pub mod Jobs
pub mod Led
pub mod Ota
pub mod Telemetry
pub mod Transfer
