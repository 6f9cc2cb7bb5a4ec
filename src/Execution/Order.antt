-- ===== src/Execution/Order.antt =====
-- ver9/execution/order_model.py and order_state_machine.py: an order and its state machine.
-- `logger` calls are left out. `transition` mutates the order only after its guard, so it returns
-- the new order or the exception.
pub mod Transitions
use crypto_trader_ver_9_alph.Prelude.{
  ℕ, Bool, false, ◌||◌, Option, List, [], ◌∷◌, String, ◌==◌, if◌then◌else◌,
}
use crypto_trader_ver_9_alph.Prelude.Float.{FloatOps, decimal, sub, max}

pub data OrderSide : Type 0 where
  buy sell : OrderSide

pub data OrderType : Type 0 where
  market limit stop : OrderType

pub data OrderStatus : Type 0 where
  created submitted acknowledged partially_filled filled cancel_pending cancelled rejected failed :
      OrderStatus

pub record ExecutionOrder (F : Type 0) : Type 0 where
  pub symbol : String
  pub side : OrderSide
  pub order_type : OrderType
  pub quantity : F
  pub price : Option F
  pub client_order_id : String
  pub exchange_order_id : Option String
  pub status : OrderStatus
  pub filled_quantity : F
  pub average_fill_price : F
  pub retry_count : ℕ
  pub created_ts : F
  pub updated_ts : F

unfoldable pub remaining_quantity : {F : Type 0} ⦃o : FloatOps F⦄ → ExecutionOrder F → F
remaining_quantity order = max (decimal 0 0) (sub order.quantity order.filled_quantity)

-- `InvalidOrderTransition`, and the `RuntimeError` of the retry policy with its last error.
pub data ExecutionError : Type 0 where
  invalid_transition : OrderStatus → OrderStatus → ExecutionError
  retries_exhausted : Option String → ExecutionError

pub data Result (A : Type 0) : Type 0 where
  ok : A → Result A
  err : ExecutionError → Result A

-- Equality of enum members, by their place in the class.
abbrev pub place : OrderStatus → ℕ
place created = 0
place submitted = 1
place acknowledged = 2
place partially_filled = 3
place filled = 4
place cancel_pending = 5
place cancelled = 6
place rejected = 7
place failed = 8

-- `new_status in allowed`
abbrev pub member : OrderStatus → List OrderStatus → Bool
member s [] = false
member s (t ∷ ts) = place s == place t || member s ts

-- `VALID_TRANSITIONS.get(status, set())`
abbrev pub valid_transitions : OrderStatus → List OrderStatus
valid_transitions created = submitted ∷ rejected ∷ failed ∷ []
valid_transitions submitted = acknowledged ∷ rejected ∷ failed ∷ []
valid_transitions acknowledged = partially_filled ∷ filled ∷ cancel_pending ∷ cancelled ∷ []
valid_transitions partially_filled = filled ∷ cancel_pending ∷ cancelled ∷ []
valid_transitions cancel_pending = cancelled ∷ filled ∷ []
valid_transitions _ = []

module _ {F : Type 0} where
  -- `now` is what `time()` returns.
  unfoldable pub transition : ExecutionOrder F → OrderStatus → F → Result (ExecutionOrder F)
  transition order new_status now =
      if member new_status (valid_transitions order.status)
      then ok (record order { status = new_status; updated_ts = now })
      else err (invalid_transition order.status new_status)
