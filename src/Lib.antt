-- ===== src/Lib.antt =====
-- A verification library of the babo matching engine: the header-only order book library under
-- libs/babobook/include, which matches orders by price and time, and the benchmark around it.
--
-- The parts and how they interact. A `matching_book` (book/matching_book.h) keeps four `narb_tree`s
-- (data_structures/narb_tree.h): bids, asks and the two trees of stop orders. A tree is a red-black
-- tree of price levels (price_level_descriptor.h), threaded by price, over one chain of pin nodes
-- (pin_node.h), which hold the orders of all its levels in priority order; a level points at its
-- first and last order. Levels and pin nodes come from two process-wide `AllocatorPool`s
-- (memory/memory_pool.h). An order (book/simple_order.h) lives in a slot of a pin node. The book
-- reports to an `OrderListener` and writes a `Depth` snapshot.
--
-- The benchmark (benchmark/) drives an engine through the functions of api/matching_engine_api.h.
-- The generator writes a workload file, the harness loads it, prepares the messages, gives them to
-- the engine one by one or in batches, and probes the state of its book; a drainer collects the
-- reports, whose canonical text is compared by its hash; the audit replays the workload through a
-- baseline engine and compares the answers to the probes. adapters/babobook_adapter.cpp is the engine
-- on a `matching_book`: it stamps orders with the ids of the messages, hears the fills as the
-- listener of the book, and pushes the reports.
--
-- Which file models which part, by the names of the functions of the source:
--   Order     book/types.h, book/simple_order.h
--   Level     book/depth_constants.h, book/depth_level.h
--   Depth     book/depth.h
--   Pool      memory/memory_pool.h
--   Pin       data_structures/pin_node.h
--   Tree      data_structures/price_level_descriptor.h, data_structures/narb_tree.h: Rotate and
--             Rebalance (insertion into the red-black tree), Search (lookups and iterators), Chain
--             (the pin nodes and the cascade), Insert, Delete (deletion from the red-black tree),
--             Erase, Check (`validate_rb`)
--   Book      book/order_listener.h, book/matching_book.h: Match (trades, `submit`), Orders (`add`,
--             `cancel`, `replace`, the stops), Snapshot (`depth`)
--   Bench     benchmark/api/matching_engine_api.h, benchmark/src/harness.h: Adapter
--             (benchmark/adapters/babobook_adapter.cpp), Workload (benchmark/workload/generator.cpp,
--             `load_workload` of benchmark/src/harness.cpp, perf/workload_reader.h), Harness and its
--             Drain (benchmark/src/harness.cpp), Audit (benchmark/src/audit.cpp), Canonical
--             (benchmark/src/correctness.cpp)
--   Perf      perf/scaling_common.h: the prices and the shuffle
--   Tests     a scenario, runs of it, and the theorems at concrete inputs
-- The modules below Order, Level, Pool, Pin, Tree/Nodes, Tree/Shape, Book/Match, Book/Orders,
-- Book/Snapshot, Bench/Adapter, Bench/Workload, Bench/Canonical and Perf, and Tree/Frame, Tree/Stable,
-- Tree/Walk, Bench/Harness/Batch, Bench/Audit/Verdict and Bench/Audit/Honest hold the proofs.
--
-- The state. Pointers are addresses with 0 for `nullptr`, and the memory of levels and of pin nodes
-- is a function of the address; a call takes the state and returns the new one. A tree with the
-- shared memory is a `Side`; the book keeps the memory once, and `side` and `put_side` read and
-- write one of its trees. A template argument is an argument: `N` is the capacity of a pin node.
-- The listener, if there is one, is the list of the calls that it got. An exception is a value of
-- its own.
--
-- Numbers are natural numbers with the wrap-around of 32 bits written out where the source
-- computes; `int32_t` deltas are integers; the overflow of `-delta` at -2^31 in `change_qty` is
-- taken as wrap-around. The adapter cuts ids and prices to 32 bits, as the source does. The sum of
-- reservations is not cut to 32 bits, since overflow of `int32_t` has no meaning in the source.
--
-- Bounds and fuel. The loops over a tree run on fuel: for a walk to the root or to a leaf the
-- number of live levels and one, which is enough since no path visits a level twice; for a walk
-- over orders the capacity of the live pin nodes and one, since each round passes one order. The
-- rounds of `process_triggered` have that many and one, since each but the last takes a stop order
-- out. The loop of `reserve` has the target and one more, since each round adds at least one chunk.
-- The search by price stands twice: `find_node_from` answers 0 when the fuel is out,
-- `find_node_run` answers `none`, so that its end can be told from a price that is missing.
--
-- The engine of the benchmark is a record of functions over a state, which holds whatever the engine
-- keeps and what its transport got; `init` gives the first state. The adapter's transport is the list
-- of the reports that it accepted: `push_report` repeats until a report is accepted. The book calls
-- the listener in the middle of `add`; since nothing else changes the adapter meanwhile, the model
-- takes the calls in order after it. The harness records its probes as in audit mode. Random numbers
-- are a parameter, the sequence of the draws. A file is the list of its bytes.
--
-- Not modelled: output operators, the raw memory behind a pool; of the benchmark the generation of a
-- timeline, threads, clocks, pinning, dynamic loading, the transports, the files of reference hashes,
-- the digits of the canonical text and its hash, the options and the printing of results; the other
-- engines and Liquibook, programs for profiling, build files and scripts: they are floating-point
-- arithmetic of the C library, calls of the system, I/O, text, or code of other projects.
pub mod Prelude
pub mod Order
pub mod Level
pub mod Pool
pub mod Pin
pub mod Tree
pub mod Depth
pub mod Book
pub mod Bench
pub mod Perf
pub mod Tests
