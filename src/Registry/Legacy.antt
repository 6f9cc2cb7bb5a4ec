-- ===== src/Registry/Legacy.antt =====
-- ver9/registry.py: the operations on the registry, and the migration that every read of the file
-- runs.
use crypto_trader_ver_9_alph.Prelude.{
  Bool, true, false, ◌&&◌, ◌||◌, not, Option, none, some, List, [], ◌∷◌, String, str_eq,
  if◌then◌else◌,
}
use crypto_trader_ver_9_alph.Prelude.Dict.{Dict, lookup, insert, erase, update, values}
use crypto_trader_ver_9_alph.Prelude.Text.{TextOps, lower, upper}
use crypto_trader_ver_9_alph.Registry.{
  text, Fields, Entry, fields, unsafe, Registry, RegistryOps, default_registry, text_from,
  field_text, fields_eq, is_recoverable, is_tradeable, normalize_record,
}

module _ {J : Type 0} where
  abbrev pub quarantine_record : String → Entry J → String → Registry J → Registry J
  quarantine_record id entry reason s = record s {
    quarantined =
        insert id (record { strategy_id = id; reason = reason; entry = entry }) s.quarantined;
  }

  abbrev pub put : String → Fields J → Registry J → Registry J
  put id r s = record s { entries = insert id (fields r) s.entries }

  abbrev pub remove : String → Registry J → Registry J
  remove id s = record s { entries = erase id s.entries }

  -- the record that `upsert_candidate` merges the given fields into
  abbrev pub current_fields : Option (Entry J) → Fields J
  current_fields (some (fields r)) = r
  current_fields _ = []

-- The filters of `list_candidates`; an empty text filters nothing.
pub record Filters : Type 0 where
  pub status : String
  pub family : String
  pub symbol : String

module _ {J : Type 0} ⦃t : TextOps⦄ (ops : RegistryOps J) (one : J) where
  -- one round of the migration, with its `changed` flag
  unfoldable pub migrate_entry : String → Entry J → Registry J × Bool → Registry J × Bool
  migrate_entry id (unsafe x) (s, changed) =
      (remove id (quarantine_record id (unsafe x) "unsafe_record" s), true)
  migrate_entry id (fields r) (s, changed) =
      let (normalized_id, normalized) = normalize_record ops one id r in
      if not (is_recoverable ops r)
      then (
        put id
            (insert "legacy_strategy_id" (text id)
              (insert "status" (text (text_from ops "candidate" (lookup "status" r))) r))
            (quarantine_record id (fields r) "recoverable_but_incomplete" s),
        true,
      )
      else if not (str_eq normalized_id id) || not (fields_eq ops normalized r)
      then (
        put normalized_id (insert "legacy_strategy_id" (text id) normalized) (remove id s),
        true,
      )
      else (s, changed)

  unfoldable pub migrate_entries : Dict (Entry J) → Registry J × Bool → Registry J × Bool
  migrate_entries [] x = x
  migrate_entries ((id, entry) ∷ rest) x = migrate_entries rest (migrate_entry id entry x)

  -- `load_registry`, with the file that it leaves
  unfoldable pub load_registry : Option (Registry J) → Registry J × Option (Registry J)
  load_registry none = (default_registry, none)
  load_registry (some s) =
      let (migrated, changed) = migrate_entries s.entries (s, false) in
      (migrated, if changed then some migrated else some s)

  -- the identifier and the fields that `upsert_candidate` stores
  abbrev pub upserted : Fields J → Registry J → String × Fields J
  upserted given s =
      let id = field_text ops "strategy_id" given in
      let merged = update (current_fields (lookup id s.entries)) given in
      let (normalized_id, normalized) = normalize_record ops one id merged in
      (normalized_id, insert "updated_at" (text ops.now) normalized)

  -- `none` is the `ValueError` of a record without an identifier
  unfoldable pub upsert_candidate : Fields J → Option (Registry J) → Option (Fields J × Registry J)
  upsert_candidate given file =
      let id = field_text ops "strategy_id" given in
      let s = (load_registry file).0 in
      let (normalized_id, stamped) = upserted given s in
      if str_eq id "" then none else some (stamped, put normalized_id stamped (remove id s))

  -- the tests of the filters on a normalized row
  abbrev pub passes_filters : Filters → Fields J → Bool
  passes_filters f r =
      (str_eq f.status "" || str_eq (lower (field_text ops "status" r)) (lower f.status))
      && (str_eq f.family "" || str_eq (lower (field_text ops "family" r)) (lower f.family))
      && (str_eq f.symbol "" || str_eq (upper (field_text ops "symbol" r)) (upper f.symbol))

  unfoldable pub filter_rows : Filters → List (Entry J) → List (Fields J)
  filter_rows f [] = []
  filter_rows f (unsafe x ∷ rows) = filter_rows f rows
  filter_rows f (fields r ∷ rows) =
      let row = (normalize_record ops one (field_text ops "strategy_id" r) r).1 in
      if is_tradeable ops (fields r) && passes_filters f row
      then row ∷ filter_rows f rows
      else filter_rows f rows

  unfoldable pub list_candidates : Filters → Option (Registry J) → List (Fields J)
  list_candidates f file = filter_rows f (values (load_registry file).0.entries)

  abbrev pub recoverable_fields : String → Option (Entry J) → Option (Fields J)
  recoverable_fields id (some (fields r)) =
      if is_recoverable ops r then some (normalize_record ops one id r).1 else none
  recoverable_fields id _ = none

  unfoldable pub get_candidate : String → Option (Registry J) → Option (Fields J)
  get_candidate id file = recoverable_fields id (lookup id (load_registry file).0.entries)
