-- ===== src/Lib.antt =====
-- Agent runtime: the parts of the TypeScript packages under 04-code-samples/packages that keep the
-- durable state of an agent. An agent writes all its state to an append-only session log; each
-- part below is a fold of that log, with methods that append to it.
--
-- Base: lists, Boolean tests, JavaScript numbers and thrown errors that the parts share.
--
-- Inbox (core/agent/src/inbox.ts, class Inbox): messages that wait for the next turn or step, in two
-- lists. Inbox.antt has the methods: construct, append, prepend, replace, remove, splice, clear and
-- claim; each mutation is a splice that is validated, appended to the log, applied to the lists and
-- published (mutate, commit). Its child modules are about what mutations do to lists, identities,
-- the log and the announced messages.
--
-- Session (core/session/src): Session.antt has the event vocabulary (types.ts), Session/Trace.antt
-- the relational invariant of the log (invariant.ts: validateEvent, applyTransition, seedSession),
-- Session/Repair.antt the closers of a turn that a crash interrupted (repair.ts:
-- interruptedTurnClosers). The child modules relate the repair's scan to the invariant's trace, and
-- its closers to the events that the invariant takes.
--
-- Goal (goal/goal/src): Goal.antt has the domain types (types.ts, domain.ts), Goal/Decode.antt and
-- Goal/Fold.antt the strict decoder and replay fold (fold.ts), Goal/Cache.antt the cached state and
-- its incremental pass, Goal/Service.antt the methods of GoalService with their commit (index.ts), and
-- Goal/Calls.antt the methods as one type of calls. The other child modules relate what the service
-- appends to what the fold takes, and its cache to the fold of the log: Goal/Lagging.antt and
-- Goal/Runs.antt while others append events that the service looks at only in its next call, with the
-- listener for starts of a session (on_session_start). Goal/Renewals.antt and Goal/References.antt are
-- about the references of changes, Goal/Projection.antt about the projection that clients read
-- (applyGoalProjection).
--
-- Pairing (compaction/compaction/src/tool-pairing.ts): where a session surface may be cut without
-- parting a tool call from its result. Pairing.antt has the balance cache with its incremental
-- extension and the two queries; the children relate it to rebuilding it and to counting.
--
-- WriteBehind (session/session-persistence/src/write-behind.ts, class SessionWriteBehind): the queue
-- between a session and its storage. WriteBehind.antt has the controller and, since its promises
-- interleave, each of its jobs as a step that the environment takes (react, run): enqueue, flush,
-- timers, answers of the backend, the `finally` of a write, and the continuations that wait for it.
--
-- Surface (core/session/src/surface.ts): which events the model sees. Surface.antt has the state, the
-- plans and the eligibility of events, Surface/Provenance.antt the checks of what an event may cite
-- and rewrite, Surface/Planning.antt the plan and the application of one event and the fold of a whole
-- log, Surface/Manager.antt the incremental manager that the session asks and validates with. The
-- other children relate the code to a step relation, count what becomes of each event, and compare
-- the manager with the fold; Surface/Messages.antt derives the messages (deriveEventMessage), and
-- Balances puts the surface under the tool pairing.
--
-- ChunkRows (core/session/src/chunk-rows.ts): runs of streamed chunks packed into one storage row.
-- ChunkRows.antt has the encoder (packChunkRuns), ChunkRows/Decoding.antt the decoder
-- (decodeStorageRecord) on what a line's JSON can hold; the children are about runs, the rows built
-- from them, reading back a batch, and the numbers and the size of what is read and written.
--
-- Retention (util/output-retention/src/index.ts): what a tool keeps of an output that is too long.
-- Retention.antt has the byte accumulator (class TextRetainer), Retention/Utf8.antt the cuts at
-- character boundaries and finish, Retention/Items.antt class ItemRetainer; the children relate them to
-- the two ends of the stream and to whole UTF-8 characters.
--
-- Assembler (llm/llm/src/assembler.ts, class BlockAssembler): the blocks of a streamed message.
-- Assembler.antt has the methods; the children separate the chunks of one block from those of the
-- others, and are about the order of the blocks.
--
-- TokenMeter (llm/token-meter/src): the heuristic price of what the model sees. TokenMeter.antt has the
-- estimate of a message (estimate.ts), the priced surface (foldSurfaceTokens), the bounded fold with its
-- claim (foldSurfaceProjection) and the breakdown projection; the children are about totals, the
-- two folds of one log, and the surface that the prices belong to.
--
-- State is passed explicitly: a method takes the part's state and gives back what it returns or
-- throws with the state that it leaves. Whether the session takes an append (session.append may be
-- vetoed) is a Boolean function of the log and the event, String.prototype.trim is a function, and
-- clock readings and random identities are arguments. Numbers are natural numbers; where the code
-- reads untrusted numbers they are JsNumber, with fractions, NaN and infinities, and the bound
-- 2^53 - 1 of a safe integer is written out. Loops are structural recursions over lists, so that no
-- fuel is needed.
--
-- Not modelled: observers that re-enter a part while it appends (the session refuses nested
-- appends), events of one part read by another, the provider and tool packages, the storage backends,
-- and the packages that only do input and output.
pub mod Base
pub mod Inbox
pub mod Session
pub mod Goal
pub mod Pairing
pub mod WriteBehind
pub mod Surface
pub mod ChunkRows
pub mod Retention
pub mod Assembler
pub mod TokenMeter
