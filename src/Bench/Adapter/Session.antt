-- ===== src/Bench/Adapter/Session.antt =====
-- A session of the adapter: from `engine_init` on, with messages whose quantities fit 32 bits, no
-- stop order ever enters the book.
use babo_matching_engine.Prelude.{ℕ, ◌<◌, ◌≡◌, refl, List, [], ◌∷◌, inl, inr, subst, arith, length}
use babo_matching_engine.Prelude.Words.{u32_mod}
use babo_matching_engine.Book.{new_book}
use babo_matching_engine.Bench.{Msg, new_msg, cancel_msg, modify_msg}
use babo_matching_engine.Bench.Workload.{WorkloadMsg}
use babo_matching_engine.Bench.Harness.{dispatch, run, run_each}
use babo_matching_engine.Bench.Harness.Batch.{Ascending, dispatch_all, run_batches-run_each}
use babo_matching_engine.Bench.Adapter.{
  Adapter, engine_init, engine_on_msg, engine_on_batch, babobook,
}
use babo_matching_engine.Bench.Adapter.Unstopped.{NoStops}
use babo_matching_engine.Bench.Adapter.Acks.{engine_on_cancel-reads}
use babo_matching_engine.Bench.Adapter.Answers.{engine_on_new_order-HandlesNew}
use babo_matching_engine.Bench.Adapter.Replacing.{engine_on_modify-reads}

-- The quantity of the message fits its `uint32_t`.
abbrev pub Fits : Msg → Type 0
Fits (new_msg m) = m.quantity < u32_mod
Fits (cancel_msg m) = Unit {0}
Fits (modify_msg m) = m.new_quantity < u32_mod

abbrev pub AllFit : List Msg → Type 0
AllFit [] = Unit {0}
AllFit (m ∷ ms) = Fits m × AllFit ms

pub engine_on_msg-NoStops :
    (N : ℕ) (a : Adapter) (m : Msg) → Fits m → NoStops a.book → NoStops (engine_on_msg N a m).book
unfolding engine_on_msg
engine_on_msg-NoStops N a (new_msg m) f k = (engine_on_new_order-HandlesNew N a m f k).no_stops
engine_on_msg-NoStops N a (cancel_msg m) f k = elim (engine_on_cancel-reads a m) [
  | inl (e, hit) ↦ hit.no_stops k
  | inr (e, miss) ↦ rw miss k
]
engine_on_msg-NoStops N a (modify_msg m) f k = elim (engine_on_modify-reads N a m f k) [
  | inl (e, hit) ↦ hit.no_stops
  | inr (e, miss) ↦ rw miss k
]

-- A batch of messages whose quantities fit 32 bits leaves no stop orders in a book that had none.
pub engine_on_batch-NoStops :
    (N : ℕ) (ms : List Msg) (a : Adapter)
    → AllFit ms
    → NoStops a.book
    → NoStops (engine_on_batch N a ms).book
unfolding engine_on_batch
engine_on_batch-NoStops N [] a f k = k
engine_on_batch-NoStops N (m ∷ ms) a f k =
    engine_on_batch-NoStops N ms (engine_on_msg N a m) f.1 (engine_on_msg-NoStops N a m f.0 k)

pub engine_init-NoStops : (size : ℕ) → NoStops (engine_init size).book
unfolding engine_init new_book
engine_init-NoStops size = (refl, refl)

-- The batch function of the adapter keeps the contract of `engine_on_batch`.
pub engine_on_batch-dispatch_all :
    (N size : ℕ) (a : Adapter) (ms : List Msg)
    → engine_on_batch N a ms ≡ dispatch_all (babobook N size) a ms
unfolding engine_on_batch engine_on_msg dispatch babobook
engine_on_batch-dispatch_all N size a [] = refl
engine_on_batch-dispatch_all N size a (new_msg m ∷ ms) =
    engine_on_batch-dispatch_all N size (engine_on_msg N a (new_msg m)) ms
engine_on_batch-dispatch_all N size a (cancel_msg m ∷ ms) =
    engine_on_batch-dispatch_all N size (engine_on_msg N a (cancel_msg m)) ms
engine_on_batch-dispatch_all N size a (modify_msg m ∷ ms) =
    engine_on_batch-dispatch_all N size (engine_on_msg N a (modify_msg m)) ms

-- For the babobook adapter, a workload of fewer than 2^32 messages and ascending indices in it,
-- the run in batches gives the same snapshots and leaves the engine in the same state as the run
-- message by message.
pub run-run_each :
    (N size : ℕ) (workload : List WorkloadMsg) (idx : List ℕ) (a : Adapter)
    → Ascending 0 (length workload) idx
    → length workload < u32_mod
    → run (babobook N size) workload idx a ≡ run_each (babobook N size) workload 0 idx a
unfolding run babobook
run-run_each N size workload idx a asc h =
    run_batches-run_each (babobook N size) (engine_on_batch N) (engine_on_batch-dispatch_all N size)
      workload 0 idx a (subst (λ n. Ascending 0 n idx) (omega arith) asc) (omega (arith, h))
