-- ===== src/Lifecycle/Tests.antt =====
-- Runs of the lifecycle, and its theorems at concrete inputs. The texts are in lower case already,
-- so the text methods are stood for by the identity.
use crypto_trader_ver_9_alph.Prelude.{◌≡◌, refl, true, none, some, List, [], ◌∷◌, ◌++◌, arith}
use crypto_trader_ver_9_alph.Prelude.Int.{ℤ, pos, negsuc}
use crypto_trader_ver_9_alph.Prelude.Fixed.{fixed, fixed-StrictOrder}
use crypto_trader_ver_9_alph.Prelude.Text.{TextOps}
use crypto_trader_ver_9_alph.Lifecycle.{LifecycleTransition, Candidate, current_status}
use crypto_trader_ver_9_alph.Lifecycle.Basket.{
  basket_context, can_enter_probationary_basket, can_enter_deployable_basket, auto_promote,
}
use crypto_trader_ver_9_alph.Lifecycle.Gates.{Thresholds}
use crypto_trader_ver_9_alph.Lifecycle.Promotion.{KeepsStatuses, earned, auto_promote_lem}
use crypto_trader_ver_9_alph.Lifecycle.History.{
  Chain, Normalizes, transition_all, transition_all-Chain,
}

instance abbrev plain : TextOps
plain = record { normalize_op = λ s. s; upper_op = λ s. s; lower_op = λ s. s; root_op = λ s. s }

abbrev candidate : Candidate ℤ
candidate = record {
  strategy_id = "s1";
  status = none;
  symbol = some "BTC/USDT";
  family = some "trend";
  regime = none;
  robustness_score = some (pos 950000);
  profit_factor = some (pos 2500000);
  max_drawdown_pct = some (negsuc 2999999);
  validation_score = some (pos 700000);
  validation_passed = true;
  transition_history = [];
}

-- A new candidate becomes deployable at once, past the steps of the table, and with no history.
straight_to_deployable :
    auto_promote candidate none ≡ record candidate { status = some "deployable" }
unfolding auto_promote can_enter_probationary_basket can_enter_deployable_basket basket_context
straight_to_deployable = refl

fixed-Thresholds : Thresholds ℤ
fixed-Thresholds = record {
  order = fixed-StrictOrder;
  le_trans = λ a b c p q. ground arith;
  robustness_up = refl;
  profit_up = refl;
  drawdown_up = refl;
  novelty_up = refl;
}

plain-KeepsStatuses : KeepsStatuses
plain-KeepsStatuses = record {
  keeps_validated = refl;
  keeps_probationary = refl;
  keeps_deployable = refl;
}

plain-Normalizes : Normalizes
plain-Normalizes = record { normalize_twice = λ s. refl }

auto_promote_lem_example :
    auto_promote candidate none ≡ record candidate { status = earned candidate none }
auto_promote_lem_example = auto_promote_lem plain-KeepsStatuses candidate none

-- the second step is refused
transition_all-Chain_example :
    (new : List LifecycleTransition) × ((transition_all candidate
        ("validated" ∷ "live" ∷ [])).transition_history
      ≡ [] ++ new)
    × Chain "candidate" new (current_status (transition_all candidate ("validated" ∷ "live" ∷ [])))
transition_all-Chain_example =
    transition_all-Chain plain-Normalizes candidate ("validated" ∷ "live" ∷ [])
