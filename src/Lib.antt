-- ===== src/Lib.antt =====
-- Verification of watchwoman, a file-watching daemon that speaks the protocol of watchman: clients
-- send commands and queries in PDUs, the daemon keeps an index of each watched root, and answers
-- what changed since a clock.
--
-- Paths are those of the repository. The parts and the files that model them:
--
-- * crates/watchwoman-protocol/src/lib.rs (errors, encodings): Protocol/Outcome.antt. A run of the
--   codec returns a value, fails with a ProtocolError, panics, or exhausts the stack.
-- * crates/watchwoman-protocol/src/value.rs (the value tree and its accessors): Protocol/Value.antt;
--   the laws of its maps are in Protocol/Fields.antt.
-- * crates/watchwoman-protocol/src/bser.rs (the binary codec): Protocol/Bser and its children. Ints
--   has write_int, need and read_int, Write has write_value, Read has read_value, Pdu has
--   encode_pdu, decode_pdu, read_pdu and write_pdu. Protocol/Utf8.antt is what the codec uses of the
--   standard library's UTF-8.
-- * crates/watchwoman/src/daemon/clock.rs (ticks and clock strings): Daemon/Clock.antt.
-- * crates/watchwoman/src/daemon/tree.rs (the file index): Daemon/Entry.antt and Daemon/Tree.antt.
-- * crates/watchwoman/src/daemon/root.rs (one watched root): Daemon/Root.antt. apply_changes, seed,
--   promote_to_full, prune_tombstones, invalidate_jj_events, cursors, triggers and subscriptions are
--   functions on the record Root, and Daemon/Root/Direct.antt has what the commands clock,
--   state-enter and state-leave do to its fields; RootStep in Daemon/Root/Invariant.antt is the step
--   relation.
-- * crates/watchwoman/src/daemon/state.rs and gc.rs (the roots of the daemon and their collection):
--   Daemon/State.antt. sweep runs over the roots' paths as the source collects them; `swept` in
--   Daemon/State/Gc.antt says what becomes of one root.
-- * crates/watchwoman/src/query/expr.rs (query expressions): Query/Expr.antt has the expressions and
--   eval, Query/Expr/Parse.antt the parser. Query/Paths.antt is what they use of std::path. The glob
--   and regular expression engines are a record of parameters, `Engines`.
-- * crates/watchwoman/src/daemon/watcher.rs (the scan of a root, and what it ignores):
--   Daemon/Watcher.antt. The disk is a tree of names. Daemon/Watcher/Events.antt has what the task
--   does with a batch of events, Daemon/Watcher/Config.antt what a .watchmanconfig says. In
--   Daemon/Watcher/Mirror.antt a Disk is what there is to stat at each path, and Followed in
--   Daemon/Watcher/Followed.antt is the relation of a disk to the root that follows it.
-- * crates/watchwoman/src/daemon/scm.rs (paths that git or hg report): Daemon/Scm.antt, with the
--   running of a program as a parameter.
-- * crates/watchwoman/src/query/field.rs, generator.rs and run.rs (rows, generators, the executor):
--   Query/Field.antt, Query/Generator.antt and Query/Run.antt. `Environment` holds what a query asks
--   of libraries and of the disk. Query/Run/Asks.antt says when a query asks from a tick,
--   Query/Run/Batch.antt and Query/Run/Quiet.antt what it lists then, Query/Run/Complete.antt what a
--   fresh answer lists and Query/Run/Mirrored.antt what the answer says of the disk that the root
--   follows.
-- * crates/watchwoman/src/commands.rs and commands/: Commands/Outcome.antt has the results and the
--   lookup of a root, Commands/Clock.antt, States.antt, Queries.antt, Watches.antt, Debug.antt,
--   Triggers.antt and Subscribe.antt the handlers, Commands/Dispatch.antt the table of commands.
--   `Host` is what they ask of the system. The loop that pushes to a subscriber is in
--   Commands/Subscribe.antt; a Feed in Commands/Subscribe/Covered.antt is a root with the events
--   that wait for one subscriber.
-- * crates/watchwoman/src/daemon/jj_scope.rs (the cache of ignore files): Daemon/JjScope.antt, with
--   the matchers of the crate `ignore` as a parameter.
-- * crates/watchwoman-protocol/src/json.rs (PDUs as lines of JSON): Protocol/Json.antt, with
--   serde_json as a parameter; `view` in Protocol/Json/View.antt is what a value is on the other
--   side.
-- * crates/watchwoman/src/daemon/server.rs (a client's connection): Daemon/Server.antt, from the
--   bytes received to the PDUs sent; a Moment is what a turn of the loop meets, with what other
--   tasks do before it tests for a shutdown and from then until the dispatch. The pushes of
--   subscriptions, which other tasks send to the session, are apart.
-- * crates/watchwoman/src/commands/info.rs (reports): Commands/Info.antt, with the report on the
--   roots in Commands/Status.antt and the list of capabilities in Commands/Capabilities.antt;
--   `Process` is what they ask of the process and the platform.
-- * crates/watchwoman/src/commands/trigger.rs (the loop of a trigger): Commands/Triggers/Loop.antt;
--   a Launch is a process that it tries to start. The root stays as it is while the waiting events
--   are handled.
-- * crates/watchwoman/src/daemon/root.rs (triggers on disk): Daemon/Persisted.antt, with
--   serde_json's two functions on a list of triggers as a parameter.
-- * crates/watchwoman/src/cli.rs (the command line as a client): Cli.antt, from a parsed command to
--   the PDU that is sent, and from the bytes that come back to the exit code; `System` is what it
--   asks of the file system.
--
-- Bounds. Bytes and machine integers are natural numbers, and a wrap-around is written out. The
-- reader recurs once for each level of nesting, and the source sets no limit; the model takes the
-- number of levels that the stack holds as `depth`, and `nesting` levels are enough for a written
-- value, as one more than the number of bytes is for any input. A vector of more elements than
-- `alloc_limit` is not granted. A real is the bit pattern of its f64. The modules called Examples
-- hold the tests and the theorems at concrete inputs; Base has the shared names, lists, maps and
-- text.
--
-- Not modelled: the arena behind the index, except where a limit reads its size; the atomics and
-- locks, whose operations are taken in the order in which the locks admit them; sockets, and a
-- session that its peer closes; the text of JSON (serde_json); registering with the kernel for
-- events, and how long the watcher waits for a batch; what the processes do that triggers start;
-- what the platform reports of the process and its allocator; and, of the command-line programs,
-- the parse of the arguments, what is printed, a client that stays connected, and starting the
-- daemon.
pub mod Base
pub mod Protocol
pub mod Daemon
pub mod Query
pub mod Commands
pub mod Cli
