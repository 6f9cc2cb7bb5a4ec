-- ===== src/Registry/Tests.antt =====
-- Two updates of a strategy whose identifier the registry cleans, and the theorems at concrete
-- inputs.
use crypto_trader_ver_9_alph.Prelude.{
  ◌≡◌, refl, true, false, Option, none, some, [], ◌∷◌, String, str_eq, if◌then◌else◌,
}
use crypto_trader_ver_9_alph.Prelude.Dict.{lookup, insert, erase, update}
use crypto_trader_ver_9_alph.Prelude.Text.{TextOps}
use crypto_trader_ver_9_alph.Registry.{
  Value, text, Fields, fields, unsafe, Registry, RegistryOps, normalize_record,
}
use crypto_trader_ver_9_alph.Registry.Legacy.{
  load_registry, upsert_candidate, migrate_entries, migrate_entry,
}
use crypto_trader_ver_9_alph.Registry.Entries.{upsert_candidate_lem}

instance abbrev plain : TextOps
plain = record { normalize_op = λ s. s; upper_op = λ s. s; lower_op = λ s. s; root_op = λ s. s }

abbrev ops : RegistryOps String
ops = record {
  truth = λ x. true;
  show = λ x. x;
  same = str_eq;
  normalize_strategy_id = λ s. if str_eq s "eth_adaptive_1" then "eth_1" else s;
  now = "t";
  is_old = λ v. false;
}

abbrev first : Fields String
first = ("strategy_id", text "eth_adaptive_1") ∷ ("family", text "trend") ∷ []

abbrev second : Fields String
second = ("strategy_id", text "eth_adaptive_1") ∷ ("status", text "live") ∷ []

abbrev family_in : Option (Fields String × Registry String) → Option (Value String)
family_in none = none
family_in (some (r, s)) = lookup "family" r

abbrev file_of : Option (Fields String × Registry String) → Option (Registry String)
file_of none = none
file_of (some (r, s)) = some s

-- The second update does not find the entry of the first, and its family is lost.
family_is_lost :
    let once = upsert_candidate ops "1" first none in
    (family_in once ≡ some (text "trend"))
    × (family_in (upsert_candidate ops "1" second (file_of once)) ≡ none)
unfolding upsert_candidate load_registry migrate_entries migrate_entry normalize_record lookup
    insert erase update
family_is_lost = (refl, refl)

abbrev mixed : Registry String
mixed = record { entries = ("a", unsafe "12") ∷ ("b", fields first) ∷ []; quarantined = [] }

upsert_candidate_lem_example :
    (x : Fields String × Registry String) × ((upsert_candidate ops "1" second (some mixed) ≡ some x)
      × (lookup "b" x.1.entries ≡ lookup "b" (load_registry ops "1" (some mixed)).0.entries))
unfolding lookup
upsert_candidate_lem_example =
    upsert_candidate_lem ops "1" second (some mixed) "eth_adaptive_1" "b" (refl, (refl, tt)) refl
      refl
