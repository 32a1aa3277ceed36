-- ===== src/Lib.antt =====
-- A verification library for the grove suite: fuse, the semantic merge driver; prism, which delivers
-- code as context to an agent; and provasign, which certifies an agent's changes before they reach
-- the main branch. The three share data on symbols from astkit and grove.
--
-- How the parts interact. fuse/internal/merge takes the three versions of a file. Its symbols are
-- merged key by key (strategies/symbol.go) on the three-way decision of strategies/threeway.go, its
-- imports by strategies/imports.go, text with no symbols line by line (strategies/line.go), and config
-- files value by value (strategies/config.go); orchestrator.go chooses among these and writes the file;
-- classification/engine.go grades what is left. provasign/internal/engine/engine.go runs the gates
-- of policy/policy.go on a changeset before and after its build and analysis stages, signs a
-- certificate, has the change admitted as a commit and records both. lifecycle/lifecycle.go moves
-- the intents, which changesets carry out, through their states in the database. prism/internal/
-- session keeps what a session was given: a table of files by last use, and a ledger of tokens;
-- prism/internal/ranking chooses the symbols to deliver and how much of each, within a budget.
--
-- The files and the code that they model:
--   Prelude             Boolean tests, measured lists, texts, Go maps, the stable sort
--   Fuse/Data           astkit/symbol.go and fuse/internal/core/types.go: what the merge reads
--   Fuse/Line           strategies/line.go: LineMerge, diffLines, applyHunks and their helpers. Patch,
--                       Slots, Assemble, Disjoint and Symmetry hold the lemmas on hunks and tags
--   Fuse/ThreeWay       strategies/threeway.go: ThreeWaySymbol; Views holds its specification
--   Fuse/Floats         the doubles of a symbol merge's confidence, with their rounding
--   Fuse/Symbols        strategies/symbol.go: SymbolMerge, orderedKeys, the rendering of conflicts
--   Fuse/Imports        strategies/imports.go: ImportMerge
--   Fuse/Classify       classification/engine.go: Classify
--   Fuse/Config         strategies/config.go: ConfigMerge
--   Fuse/Breaking       fuse/internal/merge/analysis: Analyze, BlastRadius, Dependents
--   Fuse/Reconstruct    reconstructFile of fuse/internal/merge/orchestrator.go
--   Fuse/Orchestrator   Merge of the same file, over all of these
--   Provasign/Data      core/engine_types.go, cert/types.go, cert/findings.go
--   Provasign/Policy    policy/policy.go: Registry, EvaluateAll, Allowed
--   Provasign/Engine    engine/engine.go: Check, Certify, Submit. A stage of Certify is a function
--                       to Flow, which says whether Certify returns, goes on or has a certificate.
--                       World is the store, the branch and the stage results that the engine holds
--   Provasign/Gates     policy/gates.go and policy/coverage: the path, size and coverage gates
--   Provasign/AnalysisGates policy/deps, policy/fileclass and policy/secrets
--   Provasign/Risk      cert/risk/risk.go: Compute, in exact fractions
--   Provasign/Routing   routing/router.go: Route
--   Provasign/Lifecycle lifecycle/lifecycle.go: Transition, Submit, Unroute, Assign, MarkNeedsInfo,
--                       with the statements of db/store.go and db/project_store.go,
--                       and validate of ingestion/pipeline.go
--   Provasign/DiffScope core/diffscope.go: InScope and mergeRanges
--   Grove/Data          grove/internal/core/types.go
--   Grove/EdgeIndex, Patterns, Inheritance, Edges   grove/internal/graph/edges.go: the index, the
--                       imports, the stripping of comments, and the constructors of edges
--   Grove/Graph         grove/internal/graph/graph.go: Replace, Search, Deps, SemanticSearch
--   Grove/Impact        Impact, a breadth-first search. Growth holds its rounds, Distance what they
--                       find, Ends its fuel: one round for each seed and each edge
--   Grove/Coverage      TestsFor
--   Grove/Regions       ComputeICR and DetectConflicts
--   Prism/Tracker       prism/internal/session/tracker.go: Record, Lookup, Reset and eviction
--   Prism/Ledger        prism/internal/session/ledger.go and confidence.go: Record, EstimateConfidence
--   Prism/Budget        prism/internal/ranking/budget.go: Select, Render and their helpers
--   Witnesses           the results at concrete inputs
--
-- Conventions. A Go string is the list of its bytes. A Go map is an association list; where the code
-- ranges over a map, the order is that of the list. sort.Slice and its kin are a stable insertion
-- sort. An error is a constructor or `none`. The confidence of a symbol merge is rounded as Go rounds
-- doubles, for fewer than 2 ^ 52 keys; the other confidences of fuse are exact fractions. Loops are structural recursion; the digits of itoa run on the number itself as fuel, which
-- is enough since each round divides it by ten. The counters of the ledger wrap at 2 ^ 64; line
-- numbers, indices and counts of the other files are natural numbers, bounded by the length of the
-- input. A call under a mutex is one step.
--
-- Parameters. The records Env of Provasign/Engine and of Provasign/Lifecycle hold what is outside:
-- the runners of the stages, the ICR provider, the signer, the admitter, the clock, the identifiers,
-- the hash of the config, the connectors, and which database call fails. A gate is a field of Gate.
--
-- Not modelled: extraction of symbols (tree-sitter), SQL beyond the statements above, git, HTTP and
-- MCP servers, command lines, JSON and YAML, cryptography, the programs that the stages start, and
-- the embeddings and scores in floating point. Of the program's own logic the signals of the
-- ranking, and provasign's parsing of a diff, scoring of an intent and outbox have no model here.
mod Prelude
pub mod Fuse
pub mod Grove
pub mod Prism
pub mod Provasign
mod Witnesses
