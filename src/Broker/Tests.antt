-- ===== src/Broker/Tests.antt =====
-- A batch of two orders, of which the broker refuses one.
use crypto_trader_ver_9_alph.Prelude.{
  ◌+◌, ◌≡◌, refl, not, some, List, [], ◌∷◌, map, String, str_eq, arith, if◌then◌else◌,
}
use crypto_trader_ver_9_alph.Prelude.Int.{ℤ, pos}
use crypto_trader_ver_9_alph.Prelude.Fixed.{fixed}
use crypto_trader_ver_9_alph.Basket.Samples.{statistics}
use crypto_trader_ver_9_alph.Broker.{OrderRequest, BrokerOps}
use crypto_trader_ver_9_alph.Broker.Submit.{PaperBroker, is_refused, submit}
use crypto_trader_ver_9_alph.Broker.Keys.{KeysAgree}
use crypto_trader_ver_9_alph.Broker.Answers.{submit-answers}

-- Orders for BTC have a low ratio.
abbrev ops : BrokerOps ℤ
ops = record {
  stable_ratio = λ s. pos 500000;
  order_ratio = λ id symbol side q. if str_eq symbol "BTC" then pos 200000 else pos 800000;
  truncate = λ x. 0;
  sorted = λ ids. ids;
  total = statistics.total;
}

abbrev broker : PaperBroker ℤ
broker = record { equity = pos 10000000000; fill_threshold = pos 350000 }

abbrev order : String → String → OrderRequest ℤ
order id symbol = record {
  strategy_id = id;
  symbol = symbol;
  side = "buy";
  quantity = pos 40000000;
  price = some (pos 100000000);
  order_type = "market";
  time_in_force = "ioc";
  status = "pending";
}

abbrev orders : List (OrderRequest ℤ)
orders = order "a" "BTC" ∷ order "b" "ETH" ∷ []

orders-KeysAgree : KeysAgree ops broker orders
orders-KeysAgree = (
  (refl, (λ e. refl, (λ e. ground (arith, e), tt))),
  ((refl, (λ e. ground (arith, e), (λ e. refl, tt))), tt),
)

submit-answers_example :
    let s = submit ops broker orders in
    (s.filled_orders + s.rejected_orders ≡ s.requested_orders)
    × (map (λ a. a.accepted) s.acceptance_history ≡ map (λ r. not (is_refused ops broker r)) orders)
submit-answers_example = submit-answers ops broker orders orders-KeysAgree
