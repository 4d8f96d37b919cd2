-- ===== src/Lib.antt =====
-- Verification library of Axl, a local-first agent harness (packages/*).
--
-- One daemon process owns a session: its event log, its tree of events, the model loop and the
-- tools. Requests reach it over a wire protocol, and each mutation is first entered in a journal.
--
-- Prelude, Maps: shared names, Boolean tests, results that may be errors, and JavaScript's `Map` as
--   an association list in insertion order.
-- Protocol: JSON values and canonical events (packages/protocol/src/event-envelope.ts, events.ts).
--   Event types that the modelled code does not read share one constructor.
-- Kernel.SessionTree: packages/kernel/src/session-tree.ts. `from_events` is `fromEvents`, `link` and
--   `add_node` its branch on the parent and its last write; the accessors keep their names.
--   `lineage` is a loop on fuel, the number of nodes, which is enough on a tree that was built.
-- Kernel.Replay: `verifyToolCallIntegrity` of packages/kernel/src/replay.ts.
-- Kernel.EventLog: packages/kernel/src/jsonl-event-log.ts and
--   packages/protocol/src/canonical-event.ts. A file is a list of bytes; the answers of the file
--   system are arguments. The decoding loop runs on fuel, one more than the bytes. The JSON text of
--   an event is the parameter `Codec`, redaction is an option. Creating files is not modelled.
-- Kernel.PathPolicy: packages/kernel/src/path-policy.ts. The file system and node:path are the
--   parameter `Platform`. The loop over the parents runs on fuel, one more than the path's letters.
-- Kernel.Compaction: packages/kernel/src/compaction.ts. The loop of `replacementClosure` runs on fuel,
--   the ids of all compactions, which is always enough. `Projection` holds `projectContext`, and
--   `Planning` holds `prepareCompaction` with the estimate of tokens.
-- Kernel.AgentSession: packages/kernel/src/agent-session.ts. A method changes the session and returns or
--   throws; the model port, the tools, the log, ids and clocks are the record `World`, which numbers
--   its calls. `Model` has modelTurn, `Turn` runTurn, `Compacting` compact, `Commands` the other
--   methods, `Recovery` what open does with unanswered calls. `Extended`, `Unanswered` and `Calls` are
--   about the pairs of calls and results on a branch. The loop of runTurn runs on fuel, its rounds; how
--   many it needs depends on the model, and an aborted signal bounds them.
-- Kernel.EditTool: packages/kernel/src/tools/edit.ts, on lists of UTF-16 code units; the UTF-8 codec
--   is a parameter. The loops of `countOccurrences` and `split` run on fuel, one more than the letters,
--   which is enough.
-- Kernel.MutationQueue: packages/kernel/src/tools/file-mutation-queue.ts, as steps between its awaits in
--   any order. A promise is the list of the mutations that it waits for.
-- Sdk.Activity, Sdk.Delivery: the transient activity of packages/sdk/src/projector.ts, and
--   packages/sdk/src/delivery.ts.
-- Daemon.CommandJournal: packages/daemon/src/command-journal.ts, on records. `Records` has the tests of
--   parseRecord on their fields; `parseRpcResult` is the parameter `ResultParser`. A run is a sequence of executions and settlements of effects.
-- Mcp.TaskStore: packages/extensions/mcp/src/task-store.ts. The queue runs transactions one at a time,
--   so an operation is a step on the file.
-- Sandbox.Seccomp: `buildSeccompFilter` of packages/sandbox/src/seccomp.ts. `Verdict` has the BPF
--   machine that the kernel runs.
--
-- Not modelled: events that other methods append while a turn runs (but for interactions while a tool
--   runs, and two appends that overlap), the model providers, the interfaces, the processes and the schema validators.
pub mod Prelude
pub mod Maps
pub mod Protocol
pub mod Kernel
pub mod Mcp
pub mod Sandbox
pub mod Daemon
pub mod Sdk
