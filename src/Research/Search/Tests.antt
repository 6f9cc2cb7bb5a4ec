-- ===== src/Research/Search/Tests.antt =====
-- A search over two parameters, and the theorems at it.
use crypto_trader_ver_9_alph.Prelude.{◌≡◌, refl, true, none, some, List, [], ◌∷◌, map, String}
use crypto_trader_ver_9_alph.Prelude.Int.{ℤ, pos, negsuc}
use crypto_trader_ver_9_alph.Prelude.Dict.{Dict, lookup, insert}
use crypto_trader_ver_9_alph.Prelude.Fixed.{fixed, fixed-TotalOrder}
use crypto_trader_ver_9_alph.Basket.Samples.{sum}
use crypto_trader_ver_9_alph.Research.Portfolio.{
  Bar, Strategy, EngineOps, run, strategy_signals, take_strategies, take_signals, take_signal,
  trade_signal, bars_of, timestamp_index, calculate_position_size, current_symbol_exposure,
  remove_position,
}
use crypto_trader_ver_9_alph.Research.Search.{
  SearchOps, OptimizationCandidate, product, parameter_combinations, insert_descending,
  sort_descending, candidate_of, score, search_from, optimize, rank,
}
use crypto_trader_ver_9_alph.Research.Search.Exhaustive.{Searched, optimize_lem}
use crypto_trader_ver_9_alph.Research.Search.Ranking.{rank-optimize}

abbrev ops : EngineOps ℤ
ops = record { total = sum; sharpe = λ xs. pos 0; same = λ p q. true }

abbrev frame : List (Bar ℤ)
frame =
    record { timestamp = "t0"; close = pos 100000000 }
    ∷ record { timestamp = "t1"; close = pos 110000000 }
    ∷ record { timestamp = "t2"; close = pos 120000000 }
    ∷ record { timestamp = "t3"; close = pos 130000000 }
    ∷ record { timestamp = "t4"; close = pos 140000000 }
    ∷ record { timestamp = "t5"; close = pos 120000000 }
    ∷ []

-- the parameters are the time stamp and the side of the one signal
abbrev text_at : String → Dict String → String
text_at k p = elim (lookup k p) [ none ↦ "" | some v ↦ v ]

abbrev the_strategy : Dict String → Strategy ℤ
the_strategy p = record {
  strategy_id = "one_shot";
  generate_signals = λ bars. some (
      record { timestamp = text_at "at" p; side = text_at "side" p; confidence = pos 1000000 }
      ∷ []);
}

abbrev search : SearchOps ℤ String
search = record {
  strategy_factory = λ p. some (the_strategy p);
  family_of = λ p. "unknown";
  experiment_id = λ n. "id";
}

abbrev space : Dict (List String)
space = ("at", "t0" ∷ "t1" ∷ []) ∷ ("side", "buy" ∷ "sell" ∷ []) ∷ []

four_combinations :
    parameter_combinations space
    ≡ (("at", "t0") ∷ ("side", "buy") ∷ [])
      ∷ (("at", "t0") ∷ ("side", "sell") ∷ [])
      ∷ (("at", "t1") ∷ ("side", "buy") ∷ [])
      ∷ (("at", "t1") ∷ ("side", "sell") ∷ [])
      ∷ []
unfolding parameter_combinations product
four_combinations = refl

optimize_lem_example :
    Searched fixed-TotalOrder ops search frame "BTC" "1h"
      (pos 10000000000)
      space
      (optimize ops search frame "BTC" "1h" (pos 10000000000) true space).0
optimize_lem_example =
    optimize_lem fixed-TotalOrder ops search frame "BTC" "1h" (pos 10000000000) true space

abbrev one_choice : Dict (List String)
one_choice = ("at", "t0" ∷ []) ∷ ("side", "buy" ∷ []) ∷ []

abbrev only_choice : Dict String
only_choice = ("at", "t0") ∷ ("side", "buy") ∷ []

abbrev the_choice : OptimizationCandidate ℤ String
the_choice = record {
  parameters = only_choice;
  metrics = record {
    total_return_pct = some (pos 796900);
    sharpe_ratio = some (pos 0);
    max_drawdown_pct = some (negsuc 790599);
    trade_count = some 1;
  };
  composite_score = pos 73145;
}

rank-optimize_example :
    map
      (λ x. x.composite_score)
      (rank (optimize ops search frame "BTC" "1h" (pos 10000000000) true one_choice).1)
    ≡ pos 73145 ∷ []
unfolding optimize search_from candidate_of score parameter_combinations product sort_descending
    insert_descending run strategy_signals take_strategies take_signals take_signal trade_signal
    bars_of timestamp_index calculate_position_size current_symbol_exposure remove_position lookup
    insert
rank-optimize_example =
    rank-optimize ops search frame "BTC" "1h" (pos 10000000000) one_choice
      (record {
        strategy_id = "dict";
        total_candidates = 1;
        best_candidate = the_choice;
        ranked_candidates = the_choice ∷ [];
      })
      refl

-- without a capital the first backtest raises, and nothing is saved
no_capital : optimize ops search frame "BTC" "1h" (pos 0) true one_choice ≡ (none, [])
unfolding optimize search_from parameter_combinations product run strategy_signals take_strategies
    take_signals take_signal trade_signal bars_of timestamp_index calculate_position_size
    current_symbol_exposure remove_position lookup insert
no_capital = refl
