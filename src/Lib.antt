-- ===== src/Lib.antt =====
-- Enterprise ChangeOps: the services that take a software change from the event that announces it to
-- its approved and verified execution.
--
-- The parts, and the files that model them:
--
-- Base: Boolean tests, decidable equality (Python's `==`), lists, dictionaries and sets as lists,
-- stable sorting, and calls on a state that may raise (`Exec`), with `Ends Q R m`: from every state the
-- call m ends in a value of Q or in an error of R. A dictionary is an association list;
-- `lookup`, `insert` and `erase` are `d.get(k)`, `d[k] = v` and `d.pop(k, None)`.
--
-- Contracts: packages/contracts-python/src/changeops_contracts. Json has JSON values and Python's
-- equality on them, Enums and Texts the enumerations and their texts, Models the records,
-- ChangeRecords, Approvals and Plans three validators, Equality `==` on plans and approvals, Canonical the
-- digests and derived identifiers, Samples concrete values for the examples. Plans/Progress is about the graph of a plan's steps.
--
-- Persistence: packages/persistence/src/changeops_persistence. Protocol is the interface of a change
-- repository with the laws that its clients use; Memory is the in-memory adapter, Refinement fills the
-- protocol with it; Atomic, Consistency, Runs and Isolation are about its calls and their sequences.
--
-- StateMachine: packages/changeops-core/src/changeops_core/state_machine.py. Table is the transition
-- table, Service the audited `transition` over any repository of the protocol, Paths the histories that
-- the table permits, Outcomes and Guarantees what a call of `transition` leads to.
--
-- Policy: packages/policy-engine/src/changeops_policy_engine. Models and Registry are the identities and
-- the registered tools, Engine is `evaluate`; Conditions, Authorized and Effects relate its answer to
-- an independent account of what an allowed intent needs.
--
-- Gateway: services/tool-gateway/src/changeops_tool_gateway. Models, Errors and Repository are the
-- approval requests and the idempotent executions, Quota the limit on concurrent tool calls; Approvals
-- and Executions are about the repository.
--
-- Inbox: services/event-gateway/src/changeops_event_gateway. Repository is the inbox of accepted events
-- and their publication, RateLimit the sliding window of each tenant; Accepted and Published are about
-- the inbox, Exclusion about the calls that run while an event is reserved.
--
-- Coordinator: services/workflow-coordinator/src/changeops_workflow_coordinator. Models has the durable
-- records and their validators, Repository the versioned store, Retry the retry decision; Versions is
-- about concurrent writers. Coordinator/Engine is `WorkflowEngine` of engine.py: World has the state (the
-- workflow repository, the change repository and the world outside) and the calls on its parts, Records
-- `_update_record`, `_set_runtime_status`, `_terminal`, `_audit`, `_record_audit`, `_transition` and
-- `_dead_letter`, Tasks `_execute_task`, Dag `_capture_snapshots` and `_execute_dag`, Verification
-- `_verify` and `_verify_task`, Rollback `_rollback`, Events `process_event`, Approvals
-- `resume_approval`. Outcomes and Updates say how the small calls end, Attempts how a task does; Board,
-- Readiness, Rounds, Failures and Progress are about `_execute_dag`, Capture about `_capture_snapshots`,
-- Restoration and Settlement about `_rollback`, Verified about `_verify`, Completion and Resumption
-- about the approved branch of `resume_approval`.
--
-- Admission: services/control-api/src/control_api/admission. Models has the records and the errors,
-- Documents the store of store.py and its transactions, Service, Administration and Access the
-- operations of `AdmissionService`; Actions has an operation as a value and what it may change,
-- Governance is about the owner and the administrators, Redemption about invitations, Membership about
-- `workspace`.
--
-- How code corresponds to definitions. A method of a store is a function from its arguments and the
-- state to a result and the next state. The methods hold a lock from start to end, so each is one step,
-- and an interleaving of callers is a list of calls. What a method wrote before it raises stays
-- written. A time is a number of microseconds, and where the code subtracts from a time the model adds
-- on the other side of the test. An identifier is a text; clocks and identifier factories are
-- arguments. What pydantic checks of a single field (length, pattern, lower bound) is taken to hold of
-- every value that reaches the model; validators over several fields are modelled. A JSON number stands as
-- a natural-number code. The documents of the admission store are typed: one dictionary for each kind
-- of path, with the hash of a subject or of a token as the key. The message about unsupported record updates lists the names unsorted.
--
-- In the engine, calls that `asyncio.gather` starts run one after another in their order; where nobody
-- collects the outcomes, the first that raises ends them. The wait between two attempts changes no
-- state. A transition draws the identifier of its audit event before the service is called.
--
-- Code outside of the repository is a parameter: `Codec` is JSON serialisation, SHA-256 and the dumps of
-- records, `Patterns` is `fnmatchcase` and `str.format`, `Texts` is SHA-256 and the lower case of a text,
-- and `Outside` is the clock, the identifiers and the HTTP clients of the engine, each of which answers
-- as it likes and may raise at each call. No result assumes anything of them.
--
-- Loops over lists are recursions on the list. Three loops of the engine have fuel: the attempts of
-- `_execute_task` and of `_verify_task` have one turn more than the policy allows attempts, and
-- `_execute_dag` has one turn more than there are tasks. Every attempt raises the count that the policy
-- bounds, and every round takes a task out of the pending ones; that the fuel is enough is part of the
-- results, as `out_of_fuel` is none of the errors of `IsFine`, and `settled`, which stands for `except` and
-- for `gather(return_exceptions=True)`, does not catch it.
--
-- Not modelled: the Firestore adapters, which call the client library under the same contracts; the
-- HTTP applications, clients and publishers; the identity provider of the admission service, which calls
-- Firebase; the agent fleet and the sandbox; configuration, logging, scripts and deployment; and the
-- Control Tower front end in apps/control-tower, which is TypeScript. The delay between retries is a
-- floating-point number with a random factor and is left out.
pub mod Base
pub mod Contracts
pub mod Persistence
pub mod StateMachine
pub mod Policy
pub mod Gateway
pub mod Inbox
pub mod Coordinator
pub mod Admission
