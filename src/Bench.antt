-- ===== src/Bench.antt =====
-- benchmark/api/matching_engine_api.h: the messages that the harness gives to an engine, the
-- reports that it gets, and the functions that an engine exports. Unsigned fields are natural
-- numbers, `int64_t` prices are integers.
pub mod Adapter
pub mod Workload
pub mod Harness
pub mod Audit
pub mod Canonical
use babo_matching_engine.Prelude.{ℕ, ◌-◌, ◌^◌, Option, List}
use babo_matching_engine.Prelude.Int.{ℤ, pos, negsuc}

abbrev pub u64_mod : ℕ
u64_mod = 2 ^ 64

abbrev pub int64_max : ℤ
int64_max = pos (2 ^ 63 - 1)

abbrev pub int64_min : ℤ
int64_min = negsuc (2 ^ 63 - 1)

-- `new_order_t`. `side` is 0 for a buy and 1 for a sell, `ioc` is 1 for immediate-or-cancel.
pub record NewOrder : Type 0 where
  pub order_id : ℕ
  pub sequence_number : ℕ
  pub price_ticks : ℤ
  pub quantity : ℕ
  pub side : ℕ
  pub ioc : ℕ

-- `cancel_t`.
pub record Cancel : Type 0 where
  pub order_id : ℕ
  pub sequence_number : ℕ

-- `modify_t`.
pub record Modify : Type 0 where
  pub order_id : ℕ
  pub sequence_number : ℕ
  pub new_price_ticks : ℤ
  pub new_quantity : ℕ
  pub side : ℕ

-- `me_msg_t`: the tag and the union. Every tag but 0 and 1 stands for a modify.
pub data Msg : Type 0 where
  new_msg : NewOrder → Msg
  cancel_msg : Cancel → Msg
  modify_msg : Modify → Msg

-- `me_report_type_t`, in the `uint8_t` of a report.
abbrev pub me_order_ack : ℕ
me_order_ack = 0

abbrev pub me_trade : ℕ
me_trade = 1

abbrev pub me_cancel_ack : ℕ
me_cancel_ack = 2

abbrev pub me_modify_ack : ℕ
me_modify_ack = 3

abbrev pub me_cancel_reject : ℕ
me_cancel_reject = 4

abbrev pub me_modify_reject : ℕ
me_modify_reject = 5

-- `me_report_t`.
pub record Report : Type 0 where
  pub type : ℕ
  pub side : ℕ
  pub sequence_number : ℕ
  pub order_id : ℕ
  pub price_ticks : ℤ
  pub quantity : ℕ
  pub maker_order_id : ℕ
  pub taker_order_id : ℕ

-- `EngineLib` of benchmark/src/harness.h: the functions of one engine, whose state is `E`, with
-- what its transport got. A query answers and may change the state. `none` is a `nullptr`.
pub record EngineLib {ℓ} (E : Type ℓ) : Type ℓ where
  pub init : ℕ → E
  pub on_new_order : E → NewOrder → E
  pub on_cancel : E → Cancel → E
  pub on_modify : E → Modify → E
  pub flush : E → E
  pub query_best_bid : E → ℤ × E
  pub query_best_ask : E → ℤ × E
  pub query_depth_at : E → ℤ → ℕ → ℕ × E
  pub prebuild : Option (E → Msg → E)
  pub on_batch : Option (E → List Msg → E)
