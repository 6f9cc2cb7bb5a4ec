-- ===== src/Runtime/Reconciliation/Diffs.antt =====
-- Each diff names exactly the entries that differ.
use crypto_trader_ver_9_alph.Prelude.{
  ◌≡◌, refl, Bool, true, false, ◌&&◌, not, Option, none, some, [], ◌∷◌, String, arith, eq_iff,
  str_eq, if◌then◌else◌,
}
use crypto_trader_ver_9_alph.Prelude.Dict.{Dict, IsDict, lookup, contains, mem, lookup-insert}
use crypto_trader_ver_9_alph.Prelude.Float.{FloatOps, decimal, sub, abs, lt}
use crypto_trader_ver_9_alph.Runtime.Reconciliation.{
  Position, absent, is_stale, stale_symbols, mismatch, mismatches_from, put_mismatch,
  reconcile_orders, reconcile_fills, reconcile_positions, reconcile_balances,
}

mem-absent :
    {V W : Type 0} (k : String) (d : Dict V) (e : Dict W)
    → mem k (absent d e) ≡ (contains k d && not (contains k e))
unfolding absent lookup
mem-absent k [] e = refl
mem-absent k ((j, v) ∷ d) e = ground (arith, eq_iff j k, mem-absent k d e)

-- An order is reported missing, and a fill mismatched, exactly when it is known locally and the
-- exchange does not have it.
reconcile_orders_lem :
    (F : Type 0) {V W : Type 0} (k : String) (local : Dict V) (exchange : Dict W)
    → let expected = contains k local && not (contains k exchange) in
      (mem k (reconcile_orders {F = F} local exchange).missing_orders ≡ expected)
      × (mem k (reconcile_fills {F = F} local exchange).fill_mismatches ≡ expected)
unfolding reconcile_orders reconcile_fills
reconcile_orders_lem F k local exchange = (mem-absent k local exchange, mem-absent k local exchange)

module _ {F : Type 0} ⦃o : FloatOps F⦄ where
  -- a position's quantity, 0 where it has none
  abbrev pub held : Option F → F
  held none = decimal 0 0
  held (some x) = x

  -- whether a symbol is stale, given the two positions of that name: only the local one, or both
  abbrev pub stale_if_known : Option (Position F) → Option (Position F) → Bool
  stale_if_known none q = false
  stale_if_known (some p) none = true
  stale_if_known (some p) (some q) =
      lt (decimal 1 9) (abs (sub (held p.quantity) (held q.quantity)))

  stale-is_stale :
      (p : Position F) (q : Option (Position F)) → stale_if_known (some p) q ≡ is_stale p q
  stale-is_stale p none = refl
  stale-is_stale p (some q) = ground arith

  mem-stale_symbols :
      (k : String) (d e : Dict (Position F))
      → IsDict d
      → mem k (stale_symbols d e) ≡ stale_if_known (lookup k d) (lookup k e)
  unfolding stale_symbols lookup
  mem-stale_symbols k [] e h = refl
  mem-stale_symbols k ((j, p) ∷ d) e h =
      ground (arith, eq_iff j k, mem-stale_symbols k d e h.1, stale-is_stale p (lookup j e))

  -- A symbol is reported stale exactly when there is a local position of that name and the
  -- exchange has none, or one whose quantity is further away than 1e-9.
  reconcile_positions_lem :
      (k : String) (local exchange : Dict (Position F))
      → IsDict local
      → mem k (reconcile_positions local exchange).stale_positions
        ≡ stale_if_known (lookup k local) (lookup k exchange)
  unfolding reconcile_positions
  reconcile_positions_lem k local exchange h = mem-stale_symbols k local exchange h

  -- the mismatch of an asset, given its local balance
  abbrev pub mismatch_if_known : Option F → Option F → Option F
  mismatch_if_known none c = none
  mismatch_if_known (some b) none = some b
  mismatch_if_known (some b) (some c) =
      if lt (decimal 1 6) (abs (sub b c)) then some (sub b c) else none

  known-mismatch : (b : F) (c : Option F) → mismatch_if_known (some b) c ≡ mismatch b c
  known-mismatch b none = refl
  known-mismatch b (some c) = refl

  abbrev first_of_two : Option F → Option F → Option F
  first_of_two none d = d
  first_of_two (some x) d = some x

  lookup-put_mismatch :
      (k j : String) (m : Option F) (found : Dict F)
      → lookup k (put_mismatch j m found)
        ≡ (if str_eq j k then first_of_two m (lookup k found) else lookup k found)
  lookup-put_mismatch k j none found = ground arith
  lookup-put_mismatch k j (some x) found = lookup-insert j k x found

  lookup-mismatches_from :
      (k : String) (found d e : Dict F)
      → IsDict d
      → lookup k (mismatches_from found d e)
        ≡ first_of_two (mismatch_if_known (lookup k d) (lookup k e)) (lookup k found)
  unfolding mismatches_from lookup
  lookup-mismatches_from k found [] e h = refl
  lookup-mismatches_from k found ((j, b) ∷ d) e h = ground (
    arith,
    eq_iff j k,
    known-mismatch b (lookup j e),
    lookup-mismatches_from k (put_mismatch j (mismatch b (lookup j e)) found) d e h.1,
    lookup-put_mismatch k j (mismatch b (lookup j e)) found,
  )

  -- The mismatch of an asset that is not held locally is none; of one that the exchange lacks it
  -- is the whole local balance; and else it is the difference, if that is beyond 1e-6.
  reconcile_balances_lem :
      (k : String) (local exchange : Dict F)
      → IsDict local
      → lookup k (reconcile_balances local exchange).balance_mismatches
        ≡ mismatch_if_known (lookup k local) (lookup k exchange)
  unfolding reconcile_balances lookup
  reconcile_balances_lem k local exchange h =
      rw (lookup-mismatches_from k [] local exchange h) (ground arith)

  -- For each key: an order is reported missing, and a fill mismatched, exactly when it is known
  -- locally and the exchange does not have it; a symbol is reported stale exactly when there is a
  -- local position of that name and the exchange has none, or one whose quantity is further away
  -- than 1e-9; and an asset's mismatch is none where it is not held locally, the local balance
  -- where the exchange lacks it, and else the difference, if that is beyond 1e-6.
  pub reconcile_lem :
      {V W : Type 0} (k : String) (orders : Dict V) (orders' : Dict W)
      (positions positions' : Dict (Position F)) (balances balances' : Dict F)
      → IsDict positions
      → IsDict balances
      → let expected = contains k orders && not (contains k orders') in
        ((mem k (reconcile_orders {F = F} orders orders').missing_orders ≡ expected)
          × (mem k (reconcile_fills {F = F} orders orders').fill_mismatches ≡ expected))
        × ((mem k (reconcile_positions positions positions').stale_positions
              ≡ stale_if_known (lookup k positions) (lookup k positions'))
            × (lookup k (reconcile_balances balances balances').balance_mismatches
                ≡ mismatch_if_known (lookup k balances) (lookup k balances')))
  reconcile_lem k orders orders' positions positions' balances balances' h g = (
    reconcile_orders_lem F k orders orders',
    (
      reconcile_positions_lem k positions positions' h,
      reconcile_balances_lem k balances balances' g,
    ),
  )
