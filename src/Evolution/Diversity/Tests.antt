-- ===== src/Evolution/Diversity/Tests.antt =====
-- The report of two candidates of one symbol, run.
use crypto_trader_ver_9_alph.Prelude.{◌≡◌, refl, none, some, List, [], ◌∷◌}
use crypto_trader_ver_9_alph.Prelude.Int.{ℤ}
use crypto_trader_ver_9_alph.Prelude.Dict.{lookup, insert}
use crypto_trader_ver_9_alph.Prelude.Fixed.{fixed}
use crypto_trader_ver_9_alph.Basket.{BasketRow}
use crypto_trader_ver_9_alph.Basket.Samples.{plain_text, row}
use crypto_trader_ver_9_alph.Evolution.Diversity.{
  counter, filter_candidates_by_status, diversity_report,
}

abbrev rows : List (BasketRow ℤ)
rows =
    row "a" "BTC" 2 ∷ row "b" "BTC" 3 ∷ record (row "c" "ETH" 3) { status = some "candidate" } ∷ []

one_symbol : (diversity_report "basket" none [] rows).symbol_counts ≡ ("BTC", 2) ∷ []
unfolding diversity_report filter_candidates_by_status counter lookup insert
one_symbol = refl
