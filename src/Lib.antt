-- ===== src/Lib.antt =====
-- The workflow engine of the VPC service, the services of one availability zone on top of it, its
-- workers, and the top layer that spreads a request over the zones.
--
-- A request to create a VPC, a subnet or a PCCN inserts a row for the resource and a task for each
-- step of its workflow. The manager publishes the first step to the queue of its device; a worker
-- runs it and sends a reply, and the reply completes the step and publishes the next, until the
-- last one makes the resource `running`. A final failure makes it `failed`; a failed task can be
-- replayed. A loop compares the rows with their tasks and corrects the status of what has stopped.
-- The firewall service of a zone does the same for its policies. The top layer keeps a registry of the
-- zones. For a VPC or a PCCN it submits a saga with a step for each zone, registers a row, and then
-- watches the saga and polls the zones in the background, to write their statuses into the row.
--
-- The files:
--   Prelude      names of the library, Boolean tests, tables as lists, texts
--   Decimal      the 64-bit int, `strconv.Itoa` and `strconv.Atoi`
--   Models       internal/models: statuses, rows, tasks, requests
--   World        the state that the services share (the tables and the broker's queues), errors,
--                what is outside the repository, actions, and rules for what an action keeps
--   Dao          internal/db/dao and internal/az/vfw/dao: the statements on each table
--                (Tasks: task_dao.go; Vpc and Subnet: dao.go; Pccn: pccn_dao.go; Policy: vfw)
--   Queue        internal/queue/queue.go (Routing: proofs)
--   Workflow     internal/orchestration: Manager (publishTask, RequeueTask, metadataContext),
--                Submit (SubmitWorkflow), Reply (HandleReply); the other modules are proofs:
--                Metadata, Counters, Duplicates, Once, Lost, Failure, Steps, Advance, Run, Begin,
--                Inserted, Submitted
--   Az           internal/az/orchestrator/orchestrator.go: Orchestrator (the state and what the
--                methods share), Create, Delete, Status, Replay, Compensation; Stores, Deleted,
--                Completed, Revived, Routed and Compensated are proofs, Tests has runs at concrete values
--   Worker       tasks/handlers.go (Reply, Params, Vpc, Other), tasks/pccn_handlers.go (Pccn), and the
--                table of handlers of cmd/worker/main.go (Table); the other modules are proofs about
--                a handler (Sent, Outcome, Answer) and about a workflow with it (Loop, Complete,
--                Refused, Served)
--   Vfw          internal/az/vfw/orchestrator/orchestrator.go: Orchestrator, Compensation; Agrees,
--                Deleted and Compensated are proofs
--   Top          World (the tables of the top layer and what is outside), Rules (what an action keeps);
--                internal/top/vpc/dao/dao.go: Vpc, Subnets, Range; internal/top/pccn/dao/dao.go: Pccn;
--                internal/top/registry/registry.go: Registry;
--                internal/top/orchestrator/orchestrator.go: Orchestrator (what its methods share),
--                Create (VPCs and subnets), Connect (PCCNs), Status (the overall status), Watch and
--                PccnWatch (the background work); their child modules are proofs
--
-- How the code is modelled. A method is an action: it takes the environment and the world, and
-- gives a result or an error, and the world after it; what was written before an error stays
-- written. The environment stands for all that the repository does not implement: the database's
-- and the broker's failures (`fault`, asked once for each statement and each publication), the
-- clock, `uuid.New`, the broker's inspector, HTTP answers and the process environment. Each is a
-- function of the number of calls made so far, so that any sequence of failures is an environment;
-- `IsFaultless` says that no call fails. A table is a list of rows in the order of insertion; its
-- keys are the tests of the INSERT statements. The four resource tables share one record and one
-- set of statements, as their DAOs share the text of their queries. An int that the code computes
-- with is a wrapping 64-bit int where it is read from a message (Decimal), and a natural number
-- where it is a count. A time is a number of seconds, and 0 the zero time. Every loop runs over a
-- list or a given number of ticks, so that no fuel is needed. JSON payloads are values; a payload of
-- parameters read as a reply is the reply of zero values, since it has none of its keys. Logging,
-- contexts, and the texts of errors of the standard library are left out.
--
-- The top layer has actions of the same form, on a state of its own. A loop that waits in the background
-- runs over a list of the events that it wakes up for: a tick, the end of its time, a shutdown. The
-- goroutine that a method starts is a part of its answer, and runs with its own events. A Go map is a
-- list of keys and values, read in the order of the list. A worker's handler takes a context: what
-- the task queue library says of the retries, and the JSON of a result. The tables of the top layer
-- are taken to be configured, as in its `main`. A panic of `cidrToRange` on a CIDR of IPv6 is an
-- error that nothing but the handler's recovery catches.
--
-- Not modelled: the firewall policy service of the top layer and its tables, the listing of all
-- regions and zones in the registry, the HTTP servers and clients, configuration, start and logging.
-- Two methods at a time are not interleaved: each action runs to its end, as one reply or request
-- after the other.
pub mod Prelude
pub mod Models
pub mod World
pub mod Decimal
pub mod Dao
pub mod Queue
pub mod Workflow
pub mod Az
pub mod Worker
pub mod Vfw
pub mod Top
