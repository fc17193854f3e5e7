-- ===== src/Lib.antt =====
-- edgy, a path finding service for the XRP ledger, as the build for xrpld compiles it: it keeps a copy
-- of the ledger's objects in memory, the graph of its order books beside it, and answers path requests
-- by a search over that graph.
--
-- The parts and their files; paths are from the root of the repository.
-- - Ledger.antt: `MemoryLedger` of src/edgy/memory_ledger.cpp, the view that a search reads: the objects
--   of a snapshot with an overlay of changes. `succ`, the iteration and `size` keep their names; an
--   object is of any type, and a key is its number.
-- - Builder.antt: `LedgerBuilder` of the same file, which the apply thread writes and which publishes the
--   views. Builder/Cow.antt is the same class with its two `shared_ptr`s on a heap.
-- - Sle.antt: what the code reads of a ledger object.
-- - Books.antt: `LocalOrderBooks` of src/edgy/order_books.cpp. Books/Query.antt has its queries,
--   Books/Feed.antt `addFromSle` and `removeFromSle`, Books/Setup.antt `setup`.
-- - Graph.antt: src/edgy/graph.cpp. Graph/Budget.antt is `SearchBudget`; Graph/Candidates.antt,
--   Graph/Walk.antt, Graph/Ranking.antt and Graph/Finder.antt are the stages of
--   `FastPathFinder::search`, in the order that it runs them.
-- - Builder/Items.antt: how the builder stores objects, `upsert`, `upsertRaw` and `clone`.
-- - Engine.antt: src/edgy/engine.cpp. Engine/Queue.antt is the apply queue between the network and the
--   apply thread; Engine/Meta.antt is `applyMetaNode` and Engine/Stream.antt `applyJsonAffectedNodes`.
--   Engine/Apply.antt is what the apply thread does with a batch, `applyLedgerClosed` and
--   `applyTransaction`, and the tick between batches; Engine/Snapshot.antt is `loadSnapshot`.
-- - Engine/Sessions.antt: the path requests of the engine, the tables of the subscriptions and the
--   commands on them; Engine/Sessions/Updates.antt is `notifySubscriptions` and the jobs of the pool,
--   and Engine/Sessions/Updates/Events.antt puts them together in histories.
-- - PathSession.antt: `PathSession` of src/edgy/session.cpp. PathSession/Parse.antt is `parseJson`,
--   PathSession/Validity.antt `isValid`, PathSession/Sources.antt and PathSession/Search.antt
--   `findPaths`, PathSession/Pricing.antt `revalidatePaths`, PathSession/Commands.antt the commands,
--   and PathSession/Serves.antt the class as the engine uses it.
-- - ThreadPool.antt: `ThreadPool` of include/edgy/thread_pool.hpp, which runs the searches.
-- - Containers.antt: the hash sets, hash maps and ordered maps that the classes keep.
-- - Prelude.antt: shared names, tests and lemmas. Tests.antt: the theorems at concrete inputs.
--
-- The builder publishes a ledger; the feed of the books reads the objects that the builder is given;
-- the search asks the books and runs RippleCalc against a published ledger. The engine's apply thread
-- takes messages from its queue and applies the metadata of transactions to the builder and the books.
-- Its pool runs the requests and the updates of the sessions, each of which runs the search.
--
-- A method that takes a lock is one step. A create is two, since it holds no lock while it searches,
-- and a job of the pool runs in one step when it ends. A hash container is a list without repetition,
-- and the order in which the code visits it, which the language leaves open, is that of the list. The
-- loops of `succ` and of the queries recurse on what they consume. The walk of the search takes one unit of fuel more
-- than `budget.expand`, and an iteration over a ledger one round for each object and two more; theorems
-- show that both suffice.
--
-- Parameters: what libxrpl computes, in the records `Xrpl` (Books.antt), `Payments` (Graph.antt), `Codec`
-- (Builder/Items.antt), `Fields` (Engine/Meta.antt) and `Rpc` (PathSession.antt), what a session sees of
-- the line cache (`Cache`), the times (`Clock`), and the answers of the callback that may stop a
-- search (`Request.go`).
--
-- Not modelled: the cache of decoded objects in a view, fees and rules, times and logs, the transaction
-- iterators, which are empty, and the memory that `reserve` sets aside; the loop that asks for snapshots
-- and the status of the engine, the configuration and the protocol; the rewriting of native amounts for Xahau; the
-- sockets, the server and the main program, which are input and output; src/vendor/path, include/xrpld
-- and include/edgy/xahau_compat, which are copies of other projects.
pub mod Prelude
pub mod Containers
pub mod Ledger
pub mod Sle
pub mod Builder
pub mod Books
pub mod Graph
pub mod Engine
pub mod ThreadPool
pub mod PathSession
pub mod Tests
