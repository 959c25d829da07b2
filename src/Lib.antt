-- ===== src/Lib.antt =====
-- A model of hindsight (fasthack), a cache that serves to a coding agent the output of a shell command
-- that another agent has run in the same state of the repository.
--
-- The program. An agent's hook (cmd/hindsight/hook.go) classifies a command (internal/hp/policy.go),
-- normalises it and hashes it with the state of the repository into a key (internal/hp/key.go), and asks
-- a daemon (internal/hp/daemon.go) for that key. The daemon answers from an index over an append-only log
-- (internal/hp/store.go): with a record under the key; or with a record of the same command made at
-- another tree, if the difference of the trees cannot matter, because of the command's arguments
-- (tier 1, internal/hp/scope.go) or of what the recorded run was seen to read (tier 2,
-- internal/hp/readset.go); or it waits for another agent that holds the lease on the key; or it answers
-- MISS. After a MISS the hook rewrites the command into one that runs it and sends a record
-- (cmd/hindsight/record.go), which is servable only if the run passed the purity gate. A verifier re-runs
-- served commands and tells the daemon of divergences. From the log the daemon also suggests what to run
-- before it is asked for (internal/hp/speculate.go) and says where the agents stand
-- (internal/hp/fleet.go); a warmer runs what is suggested (cmd/hindsight/warm.go). A directory that an
-- install produced can be kept and restored elsewhere (internal/hp/artifact.go). A cache can be moved as a bundle (internal/hp/bundle.go), and a recorded corpus
-- replayed to see what the cache would have saved (internal/hp/corpus.go).
--
-- The files.
--   Prelude    shared names: Boolean tests on native numbers, the conditional, lists, case lemmas
--   Sort       sort.Slice and sort.SliceStable, as insertion
--   Text       Go strings as lists of runes, with what the program uses of strings and unicode;
--              Text/PathName is path and path/filepath, Text/Glob is path.Match, Text/Order is sorting
--              without repetition and decimal numbers, Text/Base64 is UTF-8 and base64, Text/Scan is the loop
--              over the runes of a text, Text/Cut is what stands around a substring
--   Dict       Go maps with text keys, as association lists
--   Policy     internal/hp/policy.go. Syntax: hasCommandSubstitution, splitSegments, tokenizeSegment.
--              Words: the helpers on tokens. Heads: classifyHead, classifyGit, classifySed. Classify:
--              classifySegment, Classify. Tables: the tables. The other children are proofs
--   Key        internal/hp/key.go: State, Equal, NormalizeCommand, KeyText, Key
--   Record     internal/hp/store.go: Record; internal/hp/readset.go: ReadSet. Record/Gate: the purity gate
--              of cmdRecord in cmd/hindsight/record.go. Record/Output: boundedBuffer of internal/hp/record.go
--   Store      internal/hp/store.go: the index, OpenStore, ingest, dropServable, Append, Lookup, Evict,
--              Candidates
--   Hook       cmd/hindsight/hook.go: shellQuote. Flow: cmdHook, with BlobPath of internal/hp/store.go
--   Scope      internal/hp/scope.go. Paths: the functions on paths. Args: tokenScopePath,
--              segmentScopePaths, commandScopePaths. Match: scopeSelfContainedHead, ScopeMatchAt
--   Readset    internal/hp/readset.go. Observed: what a read set tells. Added: firstUnsafeAddition. Match:
--              ScopeMatchObserved. Parse: parseReadSet
--   Daemon     internal/hp/daemon.go. Leases, Decisions, Lookup (handleLookup, tryScope, waitForPeer),
--              Handlers (handleRecord, handleRelease, handleVerify), Stats. Steps: the handlers and the
--              waiting requests as a step relation on the server with those that wait in it
--   Fastpath   internal/hp/fastpath.go: KnownFast, Observe
--   Transition internal/hp/transition.go: TransitionFrom, the filters, ScanTransitions
--   Speculate  internal/hp/speculate.go. Learn: learnFromLog. Suggest: Suggestions. Ledger: SpecStats,
--              handleSuggest
--   Warm       cmd/hindsight/warm.go: warmOne, the budget; Scratch.Checkout of internal/hp/speculate.go
--   Fleet      internal/hp/fleet.go: Fleet, plural
--   Corpus     internal/hp/corpus.go. Load: parseCorpusRecord, LoadCorpusReport, MultiAgentInstances.
--              Classes: CommandClass, classOfReason, chainSegments. Replay: interleave, Replay
--   Bundle     internal/hp/bundle.go. Pack: PackCache. Unpack: UnpackCache
--   Artifact   internal/hp/artifact.go. Relocate: rootReplacer, relocationReplacers, applyRewrites.
--              Restore: Materialize, checkTargetFree, ensureCloneSource
--
-- How the model corresponds to the code. A definition has the code's name in lower case with underscores.
-- A loop over a slice is recursion on the list; where the body of a loop moves its own index, the loop is
-- `scan` of Text/Scan and its variables are a record. `("", true)` and other results with a flag are
-- options or sums. A handler of the daemon is a function on the server's state; the mutexes make each
-- critical section one step, and a handler that waits is cut there: handle_lookup says which lease it
-- waits for, resume_woken and resume_expired go on from there. A channel `done` is a number, closed
-- when it is in a list. The log file is the list of its lines, each the record that it decodes to, or
-- nothing for a blank or torn line.
--
-- Floats. The estimate of a suggestion is an exact fraction, and so is what it is ranked by; times in
-- seconds are counted in milliseconds. Maps keep the order of insertion where Go's order is random; where
-- the code sorts by distinct keys the order does not matter, and the clusters of a fan-out that are of one
-- size are in that order.
--
-- Parameters. The digest of the key and of a blob (SHA-256), Lstat below the repository root and the output of git diff-
-- tree (both in `Repo`), readSetRealPath, which resolves symbolic links, the clock and whether the log
-- file can be written (both in `Moment`), the decimal text of a number of seconds and the floor of the
-- durations (both in `Setup`), JSON (in `Codec`), what git, a worktree and a run answer to the warmer (in
-- `Attempt`), and the hash of a directory and what exists outside it (in `Machine`).
--
-- Fuel. classifyHead calls itself on the head that an install head runs, with the same tokens, and does
-- not return on some commands. The model takes fuel and answers `none` when it runs out. Two calls are
-- enough wherever the code returns, and where they are not enough no fuel is: Policy/Endless. What calls Classify and does not get an answer has
-- none either: Suggestions and handleSuggest are `none` then, as is Replay of the corpus.
--
-- What is not modelled: HTTP, JSON, files, processes and environment variables; the environment
-- fingerprint; the normalisation of outputs; the capture of artifacts and the archive of their files;
-- making and removing the worktrees of the warmer, and its goroutines; the
-- commands that only print. Float64 times are numbers of milliseconds. Texts are
-- runes rather than bytes; the code looks for ASCII characters, or for white space and digits rune by
-- rune, where the two agree. A failed append leaves the log as it was, and a line of the log longer than
-- the scanner's buffer is left out.
pub mod Prelude
pub mod Sort
pub mod Text
pub mod Dict
pub mod Policy
pub mod Key
pub mod Record
pub mod Store
pub mod Hook
pub mod Scope
pub mod Readset
pub mod Daemon
pub mod Fastpath
pub mod Transition
pub mod Speculate
pub mod Warm
pub mod Fleet
pub mod Corpus
pub mod Bundle
pub mod Artifact
