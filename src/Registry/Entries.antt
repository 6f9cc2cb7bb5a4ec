-- ===== src/Registry/Entries.antt =====
-- What the migration and `upsert_candidate` leave in the registry.
use crypto_trader_ver_9_alph.Prelude.{
  ◌≡◌, refl, ap, ◌∙◌, inl, inr, Bool, true, false, not, ◌||◌, Option, none, some, [], ◌∷◌, String,
  str_eq, arith, eq_iff, Bool-cases, if◌then◌else◌,
}
use crypto_trader_ver_9_alph.Prelude.Dict.{
  Dict, IsDict, lookup, insert, erase, update, lookup-insert, lookup-erase, lookup-update,
}
use crypto_trader_ver_9_alph.Prelude.Text.{TextOps}
use crypto_trader_ver_9_alph.Registry.{
  text, Fields, Entry, fields, unsafe, Registry, RegistryOps, field_text, text_from, fields_eq,
  is_recoverable, normalize_record,
}
use crypto_trader_ver_9_alph.Registry.Legacy.{
  put, remove, migrate_entry, migrate_entries, load_registry, current_fields, upserted,
  upsert_candidate,
}

abbrev pub is_unsafe : {J : Type 0} → Option (Entry J) → Bool
is_unsafe none = false
is_unsafe (some (fields r)) = false
is_unsafe (some (unsafe x)) = true

module _ {J : Type 0} ⦃t : TextOps⦄ (ops : RegistryOps J) (one : J) where
  insert-unsafe :
      (j id : String) (r : Fields J) (d : Dict (Entry J))
      → is_unsafe (lookup j (insert id (fields r) d)) ≡ true
      → (str_eq id j ≡ false) × (is_unsafe (lookup j d) ≡ true)
  insert-unsafe j id r d k =
      let l = lookup-insert id j (fields r) d in (ground (arith, l, k), ground (arith, l, k))

  erase-unsafe :
      (j id : String) (d : Dict (Entry J))
      → is_unsafe (lookup j (erase id d)) ≡ true
      → (str_eq id j ≡ false) × (is_unsafe (lookup j d) ≡ true)
  erase-unsafe j id d k =
      let l = lookup-erase id j d in (ground (arith, l, k), ground (arith, l, k))

  -- One round removes an unsafe entry under its key, and adds none.
  migrate_entry-unsafe :
      (j id : String) (entry : Entry J) (rest : Dict (Entry J)) (s : Registry J) (changed : Bool)
      → (is_unsafe (lookup j s.entries) ≡ true → is_unsafe (lookup j ((id, entry) ∷ rest)) ≡ true)
      → is_unsafe (lookup j (migrate_entry ops one id entry (s, changed)).0.entries) ≡ true
      → is_unsafe (lookup j rest) ≡ true
  unfolding migrate_entry lookup
  migrate_entry-unsafe j id (unsafe x) rest s changed h k =
      ground (arith, eq_iff id j, lookup-erase id j s.entries, h, k)
  migrate_entry-unsafe j id (fields r) rest s changed h k =
      let n = normalize_record ops one id r in
      elim (Bool-cases (is_recoverable ops r)) [
        | inr e ↦
            let q = insert-unsafe j id _ s.entries (rw (e, migrate_entry) at k) in
            ground (arith, h q.1, q.0)
        | inl e ↦ elim (Bool-cases (not (str_eq (n.0) id) || not (fields_eq ops (n.1) r))) [
          | inl c ↦
              let q =
                insert-unsafe j (n.0) _ (erase id s.entries) (rw (e, c, migrate_entry) at k) in
              let p = erase-unsafe j id s.entries q.1 in ground (arith, h p.1, p.0)
          | inr c ↦
              let q : is_unsafe (lookup j s.entries) ≡ true = rw (e, c, migrate_entry) at k in
              ground (arith, h q, eq_iff id j)
        ]
      ]

  migrate_entries-unsafe :
      (j : String) (rest : Dict (Entry J)) (s : Registry J) (changed : Bool)
      → (is_unsafe (lookup j s.entries) ≡ true → is_unsafe (lookup j rest) ≡ true)
      → is_unsafe (lookup j (migrate_entries ops one rest (s, changed)).0.entries) ≡ false
  unfolding migrate_entries lookup
  migrate_entries-unsafe j [] s changed h = ground (arith, h)
  migrate_entries-unsafe j ((id, entry) ∷ rest) s changed h =
      let (s', changed') = migrate_entry ops one id entry (s, changed) in
      migrate_entries-unsafe j rest s' changed' (migrate_entry-unsafe j id entry rest s changed h)

  -- Whatever the file holds, no entry of the registry that is read from it is anything but a
  -- record.
  load_registry-safe :
      (file : Option (Registry J)) (id : String)
      → is_unsafe (lookup id (load_registry ops one file).0.entries) ≡ false
  unfolding load_registry lookup
  load_registry-safe none id = refl
  load_registry-safe (some s) id = migrate_entries-unsafe id s.entries s false (λ h. h)

  normalize_record-id :
      (id : String) (r : Fields J)
      → (normalize_record ops one id r).0
        ≡ ops.normalize_strategy_id (text_from ops id (lookup "strategy_id" r))
  unfolding normalize_record
  normalize_record-id id r = refl

  -- A record with an identifier is stored under its normalized identifier, its old identifier is
  -- gone where that is another one, and every other entry of the registry stays as it was read.
  pub upsert_candidate_lem :
      (given : Fields J) (file : Option (Registry J)) (id j : String)
      → IsDict given
      → lookup "strategy_id" given ≡ some (text id)
      → str_eq id "" ≡ false
      → let s = (load_registry ops one file).0 in
        let normalized_id = ops.normalize_strategy_id id in
        (x : Fields J × Registry J) × ((upsert_candidate ops one given file ≡ some x)
          × (lookup j x.1.entries ≡ (
              if str_eq normalized_id j
              then some (fields x.0)
              else if str_eq id j
              then none
              else lookup j s.entries)))
  unfolding upsert_candidate
  upsert_candidate_lem given file id j d e n =
      let s = (load_registry ops one file).0 in
      let own : field_text ops "strategy_id" given ≡ id = rw e rw n refl in
      let raw = field_text ops "strategy_id" given in
      let after : String → Option (Entry J) =
        λ a. if str_eq a j then none else lookup j s.entries in
      let current = current_fields (lookup raw s.entries) in
      let x = upserted ops one given s in
      let id_kept : (x.0) ≡ ops.normalize_strategy_id id =
        normalize_record-id raw (update current given)
        ∙ rw (lookup-update "strategy_id" current given d) rw e rw n refl in
      let named : str_eq (field_text ops "strategy_id" given) "" ≡ false = rw own n in
      (
        (x.1, put (x.0) (x.1) (remove raw s)),
        (
          rw named refl,
          lookup-insert (x.0) j (fields (x.1)) (erase raw s.entries)
              ∙ ap (λ a. if str_eq (x.0) j then some (fields (x.1)) else a)
                  (lookup-erase raw j s.entries)
              ∙ ap (λ a. if str_eq a j then some (fields (x.1)) else after raw) id_kept
              ∙ ap
                  (λ a.
                    if str_eq (ops.normalize_strategy_id id) j
                    then some (fields (x.1))
                    else after a)
                  own,
        ),
      )
