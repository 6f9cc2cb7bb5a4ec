-- ===== src/Daemon/Tests.antt =====
-- The daemon with two candidates, of which the broker fills one, and its theorems at that input.
use crypto_trader_ver_9_alph.Prelude.{
  ◌≡◌, refl, true, false, none, some, List, [], ◌∷◌, String, str_eq, arith, if◌then◌else◌,
}
use crypto_trader_ver_9_alph.Prelude.Int.{ℤ, pos}
use crypto_trader_ver_9_alph.Prelude.Fixed.{fixed}
use crypto_trader_ver_9_alph.Prelude.Dict.{lookup, insert}
use crypto_trader_ver_9_alph.State.{Disk, is_quarantined}
use crypto_trader_ver_9_alph.Basket.Build.{AllocationDecision}
use crypto_trader_ver_9_alph.Basket.Samples.{plain_text, statistics, age_days, row}
use crypto_trader_ver_9_alph.Broker.{BrokerOps, AcceptanceRow}
use crypto_trader_ver_9_alph.Risk.{evaluate_portfolio}
use crypto_trader_ver_9_alph.Daemon.{
  Version9Daemon, CandidateSource, Payloads, ExecutionSignal, RuntimeCycle,
}
use crypto_trader_ver_9_alph.Daemon.Transitions.{build_transition_summary}
use crypto_trader_ver_9_alph.Daemon.Loop.{risk_of_signal, run_forever}
use crypto_trader_ver_9_alph.Daemon.Outcomes.{SampleLaws, is_refused, refused-quarantined}
use crypto_trader_ver_9_alph.Daemon.Cycles.{HasRun, run_forever_lem}

abbrev ops : BrokerOps ℤ
ops = record {
  stable_ratio = λ s. pos 500000;
  order_ratio = λ id symbol side q. if str_eq symbol "BTC" then pos 200000 else pos 800000;
  truncate = λ x. 0;
  sorted = λ ids. ids;
  total = statistics.total;
}

abbrev payloads : Payloads ℤ String
payloads = record {
  cycle_payload = λ c. "cycle";
  execution_payload = λ e. "execution";
  risk_payload = λ r. "risk";
}

abbrev candidates : CandidateSource ℤ String
candidates d status =
    if str_eq status "deployable" then row "a" "BTC" 2 ∷ row "b" "ETH" 3 ∷ [] else []

-- A daemon with `max_cycles=0`.
abbrev daemon : Version9Daemon ℤ
daemon = record { capital = pos 10000000000; max_positions = 3; live = false; max_cycles = some 0 }

abbrev disk : Disk ℤ String
disk = record { file = none; synced = [] }

run_forever_lem_example :
    (x : List (RuntimeCycle ℤ) × Disk ℤ String) × ((run_forever payloads age_days statistics ops
          candidates daemon 1 disk
        ≡ some x)
      × HasRun payloads age_days statistics ops candidates daemon 1 disk x)
run_forever_lem_example =
    run_forever_lem payloads age_days statistics ops candidates daemon 0 1 disk refl (ground arith)
      (ground arith)

fixed-SampleLaws : SampleLaws ℤ
fixed-SampleLaws = record { full = refl; partial = refl; low = refl }

abbrev signal : ExecutionSignal ℤ
signal = record {
  approved = true;
  reason = "execution_partial_fill";
  fill_rate = pos 500000;
  filled_orders = 1;
  rejected_orders = 1;
}

abbrev acceptance : String → AcceptanceRow ℤ
acceptance id = record {
  strategy_id = id;
  symbol = "BTC";
  side = "buy";
  requested_quantity = pos 1000000;
  expected_price = none;
  fill_price = none;
  accepted = str_eq id "b";
  fill_ratio = pos 500000;
  slippage_bps = none;
  rejection_reason = none;
}

abbrev history : List (AcceptanceRow ℤ)
history = acceptance "a" ∷ acceptance "b" ∷ []

abbrev allocation : String → AllocationDecision ℤ
allocation id = record {
  strategy_id = id;
  symbol = "BTC";
  weight = pos 300000;
  capital_allocated = pos 0;
  expected_risk = pos 0;
  covariance_penalty = pos 0;
  selection_reason = "optimizer_selected";
  metadata = record {
    strategy_id = id;
    symbol = some "BTC";
    family = none;
    regime = none;
    status = some "deployable";
    allocation_pct = pos 300000;
    allocation_weight = pos 300000;
    basket_score = pos 1000000;
    candidate_score = pos 1000000;
    probationary = false;
  };
}

abbrev portfolio : List (AllocationDecision ℤ)
portfolio = allocation "a" ∷ allocation "b" ∷ []

abbrev settled : Disk ℤ String
settled = (build_transition_summary history (risk_of_signal signal) signal portfolio disk).1

refused : is_refused history (risk_of_signal signal) "a" ≡ true
unfolding risk_of_signal evaluate_portfolio lookup insert
refused = refl

refused-quarantined_example : is_quarantined "a" settled ≡ true
refused-quarantined_example =
    refused-quarantined history (risk_of_signal signal) signal "a" portfolio disk refl refl refused
