-- ===== src/Lib.antt =====
-- moodle-autotask: a worker that takes Moodle assignments through approval, a lab on AWS, an agent's
-- execution and a second approval to a submission. What is modelled, file by file (paths without a
-- prefix are below src/moodle_autotask/):
--
--   Base        shared notation, lists, options and results.
--   Exec        methods that change an object and may raise an exception, with the object kept as it
--               was when it raised; Exec/Steps has the rules for a relation that every run respects.
--   Lifecycle   domain/state_machine.py: `TaskState`, `_TRANSITIONS` and `transition`.
--   Models      domain/models.py: the dataclasses, their `__post_init__` checks (Models/Checks) and
--               `_validate_json_value` (Models/Json).
--   Orchestrator  application/orchestrator.py: `TaskOrchestrator`, every method of it, over the ports
--               of ports/contracts.py, which are arbitrary functions that may answer differently at
--               each call and may raise. Its calls of the ports are recorded in order.
--   Worker      adapters/aws/worker.py: `_process_submission` and `_finalize_submission`, over an
--               arbitrary Moodle service and an arbitrary durable state, whose answers may depend on
--               all the calls before.
--               Worker/Execution: `process_one` with a claim of work, that is `_process_claim` and the
--               handlers of its exceptions, over arbitrary ports in the same way.
--               Worker/Notify: `_deliver_pending_notification` and `_offer_submission_approval`.
--   Events      adapters/moodle/state.py: the notifications with their checks, `as_dict`, and
--               `_event_from_json` (Events/Reading) on the values that the JSON text stands for.
--   Outbox      adapters/moodle/state.py: `MoodleState`, whose tables are lists of rows and whose methods
--               are transactions (Outbox: reading, `acknowledge` and `enqueue`; Outbox/Leases: `claim`,
--               `renew`, `complete` and `fail`; Outbox/Operations: sequences of calls). The hash of an
--               event's key, the lease tokens and the times are arguments; a SQLite error, which leaves
--               the tables alone, is not modelled.
--   Table       SQL statements on a table as the list of its rows, for both databases.
--   Approvals   adapters/moodle/approval_state.py: the rows of `ApprovalState`'s tables; its methods on
--               requests (Approvals/Requests), on submissions (Approvals/Submissions: `prepare_submission`
--               and `resolve_submission`; Approvals/Submissions/Claims: the claims;
--               Approvals/Submissions/Operations: sequences of calls) and on work (Approvals/Work:
--               `claim_work`; Approvals/Work/Calls: the methods of a claim; Approvals/Work/World: the bot
--               and the workers over one database). Times and tokens are arguments, and so is what the
--               hash functions give. An exception leaves the tables as they were.
--   Storage     adapters/aws/storage_quota.py on POSIX: what a tree occupies, and the admission of a
--               write under `storage_admission_lock`.
--   Reaper      infra/aws/controller/lab_reaper.py: which instances are labs that have outlived their time
--               (Reaper), and the batch that is terminated (Reaper/Batch).
--
-- The lifecycle's transitions are what the orchestrator's methods go through (`set_state`). Loops are
-- structural recursion, but for the reaper's loop over the pages of an answer, which runs on fuel:
-- one unit for each page, so more than the service has tokens is enough.
--
-- Not modelled: of adapters/moodle/approval_state.py, the schema, its migration, the records of
-- retention, and the building and reading of manifests and provenances; HTTP and AWS clients, sockets
-- and files, the hash and the JSON text of `Digest.of_json`, the Windows variant of the measurement,
-- and the Terraform, PHP and shell parts of the repository.
pub mod Base
pub mod Exec
pub mod Lifecycle
pub mod Models
pub mod Orchestrator
pub mod Table
pub mod Approvals
pub mod Worker
pub mod Events
pub mod Outbox
pub mod Storage
pub mod Reaper
