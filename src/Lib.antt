-- ===== src/Lib.antt =====
-- Genesis SSMP: an operating system for agent swarms. The server Heaven (heaven/) keeps the shared
-- state, an append-only event log, leases on scopes, and a clock for each file, and answers the page
-- faults of agents, their requests for context, out of a store of blobs and of prompts cut into
-- sections. The orchestrator God (god/) plans missions, also from Angel Assembly and from Genesis ISA,
-- packs them under a budget, sends them to agents through a provider, reads the patches that come
-- back, integrates the edits into a repository, with the leases and clocks of the server, computes the
-- diffs of the files, and meters the missions. Telemetry is written in a compact notation
-- (internal/lean/).
--
-- Which file models which part:
--
--   Base, Base/*         shared: tests, lists, bytes, texts, Go maps, results, integers, decimals
--   Heaven/EventLog      heaven/eventlog.go: append, all, tail, len over the bytes of the file
--   Heaven/State         the types of heaven/leases.go, the events, and the state that the lease
--                        manager, the file clocks and the log share
--   Heaven/Leases        heaven/leases.go: acquire, release, owner_holds_scope, replay
--   Heaven/FileClock     heaven/fileclock.go: increment, get_clocks, replay_clocks
--   Heaven/Server        heaven/server.go: start, and the handlers of events, leases, clocks and
--                        manifests
--   Heaven/Blobs         heaven/blob.go: put_blob, get_blob
--   Heaven/Sectioner     heaven/sectioner.go: section_prompt with its levels
--   Heaven/PromptStore   heaven/prompt.go: store, get, search, reconstruct, store_delta
--   Heaven/Commands      heaven/pf.go: requests, shards, store_shard, metrics_of
--   Heaven/Lookups, Heaven/Prompts
--                        heaven/pf.go: the handlers of the commands, over the values of Heaven/Json
--   Heaven/Router        heaven/pf.go: handle, and heaven/pf_governor.go: governed
--   Heaven/Delta         heaven/pf_delta.go: shard_key, check_and_update
--   God/Missions         god/mission.go and god/aa_validate.go: missions, their DAG, validate_mission
--   God/AngelAssembly    god/aa_parser.go: parse_aa, and god/aa_compiler.go: compile_aa
--   God/Isa              god/isa_parser.go: the arguments, in Lines parse_isa, and in Compile
--                        god/isa_compiler.go: compile_isa
--   God/Diff             god/edit_diff.go: compute_diff, build_hunks, generate_diff
--   God/Edit             god/edit_apply.go: apply_edit_ir and its nine operations
--   God/Integrator       god/integrator.go: integrate, rebase_anchors, generate_conflict_mission
--   God/MacroOps         god/macro_ops.go: expand_macro_ops, validate_macro_op
--   God/Provider         god/provider.go: execute with its checks and its retry, and the types of a
--                        mission pack of god/prompt_compiler.go
--   God/PromptCompiler   god/prompt_compiler.go: compile_pack (CompileWithPromptRef), score_shards
--   God/Patch            god/patch_v1.go: parse_patch, validate_patch, patch_response; in Delta the
--                        decoding of a delta, decode_content and decode_ops
--   God/Planner          god/planner.go: extract_keywords; in Buckets group_by_bucket, in Plan plan
--   God/Meter            god/meter.go: the metrics of a mission and their counters
--   God/Thrash           god/thrash.go: detect, check and its latch, and any sequence of their calls
--   Lean                 internal/lean: encode_row (EncodeRow), decode_rows (the lines of Decode after
--                        the separator), the schema of the metrics
--   Tests                concrete runs
--
-- A Go string is a list of bytes, a Go map an association list that holds each key once, and an
-- operation on an object a function from the state to the new state. The mutex of each object makes
-- an operation one step; page faults, which hold none for a whole request, are taken one after the
-- other, and so are the steps of one integration. Counters that only grow (clocks, revisions, numbers
-- of operations) are natural numbers; a number that comes from an agent is an integer.
--
-- What comes from outside is a parameter: the JSON codec, the drawing of identifiers, the validity of
-- a posted text and the success of a write (Env in Heaven/State), the joining of paths, SHA-256 and
-- the permission to write a file (Host in God/Edit), strings.ToLower with its Unicode tables and
-- SHA-256 (TextHost in Heaven/Sectioner), the time of a prompt (PromptHost in Heaven/PromptStore), the
-- clock and the encoding of metrics (Host in God/Meter), and what the index, the prompt store and the
-- files of the blobs answer (PfHost in Heaven/Commands, BlobHost in Heaven/Blobs). The integrator's
-- (IntegratorHost in God/Integrator/Conflict) are the wording of errors and events, the clock, the
-- identifier that is drawn, and how each call of the server ends: answered, lost on its way, or done
-- without an answer. The adapter's (ProviderHost in God/Provider) are the JSON codec, the wording of
-- an error, what the provider answers to each attempt, and the time taken. The planner's (PlannerHost
-- in God/Planner/Plan) are the index, the order of Go maps and of the sort, the identifiers, and how
-- its calls of the server end; the packing's (PackHost in God/PromptCompiler) are the JSON codec, the
-- clock, and the comparison and the sort of scores, which are floating point. Conditions on them stand
-- in the theorems: that an event reads back as written, that identifiers are not drawn twice, that no
-- two texts have one hash. Heaven/EventLog has the log as the bytes of its file. The server keeps the
-- list of the texts that were appended, and when it starts it reads the lines of the file that these
-- make, with the limit of a reader's buffer. A write of a blob that fails may leave a part of the
-- text, which is then in the store.
--
-- Most loops run over lists and need no bound, and the retries of the adapter are counted down as in
-- the code. Two loops have a number of rounds: that of splitAtParagraphs, as many as the text has
-- bytes and one more, which is enough since each round takes a byte, and the digits of a number, as
-- many as the number and one more.
--
-- Not modelled: the index, the scores of shards, the header of a telemetry document and its columns
-- of floats, the oracle, the other parts of God, HTTP, the command line client under cli/, and the
-- benchmarks. Error texts are constructors without their wording, and the renderings
-- "path: expected=… actual=…" of a clock drift are records of their parts.
mod Base
pub mod Heaven
pub mod God
pub mod Lean
mod Tests
