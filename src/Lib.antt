-- ===== src/Lib.antt =====
-- Perdure: a harness that lets an agent change a repository within a goal's authority and accepts
-- the work only on evidence. This library models the parts of src/ that decide: what is hashed,
-- what is in scope, what is verified and committed, how a run ends, resumes and replays, and what a
-- call may do.
--
-- The parts, with the files of the repository that they model:
--   * Prelude and its children: texts (a `String` is the list of its code points), lists and tests
--     over the native numbers, results, sorted maps (`BTreeMap`), decimal numbers, sorting.
--   * Glob: `glob_match` of src/patch.rs. Meaning has the relation that it decides, Shapes the
--     patterns that scopes are made of.
--   * Hash: src/hash.rs. A `u32` is a number below 2^32, with `% 2 ^ 32` written out. Padding
--     states the standard's padding, Streaming relates the buffer to it, Digest is about the text
--     form.
--   * Json: `serde_json::Value`. A float stands as its printed text.
--   * Store: `canonical_bytes`, FNV-1a and the ids of src/store.rs. Run: `RunState`, `Receipt` and
--     the receipts' lookup of src/store.rs.
--   * Event: src/event.rs, the events and `verify_chain` (Chain, Chain/Tamper). Log is the file of
--     the history as a text: what an append writes, what a crash leaves, and what `resume` makes of
--     it.
--   * Goal: src/goal.rs, budgets and grants.
--   * Shell: `tokenize` of src/shell.rs.
--   * Snapshot: src/snapshot.rs. The file system is a tree of named entries, in the order in which
--     the walk reads them; Diffing and Ignoring have the theorems.
--   * Guard: src/guard.rs. A session is what stands on disk: goal, frozen baseline and ignore set,
--     tree, receipts, history, state. Verify and Gate are `verify_inner`, Commit is `commit` and
--     `abort`, Advice is `agent_state`; Scope, Evidence, Finalized, Reuse and Laundering have the
--     theorems. Begin is `begin` with what it refuses, Audit is `audit`, Replay is `replay`, Plan
--     is the view for an agent (`compute_plan`, `next`, `diff`, `verify_report`). The gate calls
--     Snapshot for the head, Glob for scopes, Hash for the digest, Store for keys, and the shell,
--     which is a parameter.
--   * Runtime: src/runtime.rs, the repair runs. One turn of `drive` is in Runtime, the loops are in
--     Runtime/Loop; Replay, Budgets and Resume have the theorems. The step of the coder is a
--     parameter, any function of the workspace, and the workspace any type.
--   * Actions: the action runs of src/runtime.rs, with src/action.rs and the approvals of
--     src/store.rs and src/cli.rs. Tools are the fake tools, Loop is `drive_actions` with the
--     crashes that the source can be given, behind a step or behind a receipt, Life the steps a run
--     takes from its start (running, resuming, a person's decision); Turns, Once, Cleared, Ends and
--     Replay have the theorems.
--   * Patch: src/patch.rs without the matcher. The parser, the checker and the test runner are
--     fields of a parameter. Impact is the call graph and its search.
--   * Imports: the import paths of src/program.rs.
--   * Http and Tool: the grants of src/http.rs and src/tool.rs. Grants has what they accept, Wire the
--     names of headers on the wire.
--   * Examples: the theorems at concrete inputs.
--
-- Bounds and fuel. `drive` and `simulate` run on fuel, and `run_to_end` gives one turn more than
-- the steps that are left (Runtime/Budgets). `drive_actions` takes fuel too: one turn more than the
-- budget leaves behind the cursor is enough (Actions/Ends). The search of the call graph has its
-- seeds and edges as fuel (Patch/Impact/Closure). `absorb` has the length of its part as fuel, and
-- `print_digits` the number. Counters of a run are unbounded numbers.
--
-- Not modelled: the file system's and the network's errors, locks and atomic replacement, history
-- files that are not UTF-8, process spawning and timeouts, the parser, formatter, checker and
-- interpreter of goal files (parameters where the patch pipeline calls them), the command line but
-- for the decision on an approval, the JSON-RPC server, plan runs, the repair strategies, and the
-- two context packets of the guard.
pub mod Patch
pub mod Imports
pub mod Actions
pub mod Prelude
pub mod Glob
pub mod Hash
pub mod Json
pub mod Store
pub mod Event
pub mod Goal
pub mod Snapshot
pub mod Shell
pub mod Run
pub mod Guard
pub mod Runtime
pub mod Http
pub mod Tool
pub mod Examples
