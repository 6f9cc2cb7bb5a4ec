-- ===== src/Evolution/Tuner/Tests.antt =====
-- The quotas of a trending market, and the theorem at a family that is not given.
use crypto_trader_ver_9_alph.Prelude.{◌+◌, ◌/◌, ◌≡◌, refl, true, false, [], ◌∷◌}
use crypto_trader_ver_9_alph.Prelude.Int.{ℤ, pos, negsuc, pos_part}
use crypto_trader_ver_9_alph.Prelude.Dict.{Dict, lookup, insert, contains}
use crypto_trader_ver_9_alph.Prelude.Fixed.{fixed}
use crypto_trader_ver_9_alph.Prelude.Text.{TextOps}
use crypto_trader_ver_9_alph.Evolution.Tuner.{
  TunerOps, override_quotas, tune_quotas, tune_family_quotas,
}
use crypto_trader_ver_9_alph.Evolution.Tuner.Positive.{is_positive, tune_family_quotas-positive}

instance abbrev plain : TextOps
plain = record { normalize_op = λ s. s; upper_op = λ s. s; lower_op = λ s. s; root_op = λ s. s }

abbrev ops : TunerOps ℤ
ops = record {
  mean = λ xs. pos 0;
  round_int = λ x. pos ((pos_part x + 500000) / 1000000);
  text_lt = λ a b. false;
}

quotas_in_a_trend :
    tune_family_quotas ops "trend" [] []
    ≡ ("mean_reversion", 4) ∷ ("volatility_compression", 4) ∷ ("trend", 4) ∷ []
unfolding tune_family_quotas tune_quotas override_quotas lookup insert
quotas_in_a_trend = refl

tune_family_quotas-positive_example :
    let given : Dict ℤ = ("trend", negsuc 0) ∷ [] in
    let tuned = tune_family_quotas ops "trend" given [] in
    (contains "mean_reversion" tuned ≡ true) × (is_positive (lookup "mean_reversion" tuned) ≡ true)
unfolding lookup
tune_family_quotas-positive_example =
    tune_family_quotas-positive ops "trend" (("trend", negsuc 0) ∷ []) [] "mean_reversion"
      (refl, tt)
