-- ===== src/Runtime/Recovery/Merge.antt =====
-- What a recovery gives, from a checkpoint and a log.
use crypto_trader_ver_9_alph.Prelude.{
  ◌≡◌, ◌≢◌, Option, none, some, List, String, arith, Option-cases, inl, inr, or_else,
}
use crypto_trader_ver_9_alph.Prelude.Dict.{Dict, IsDict, lookup, update, lookup-update}
use crypto_trader_ver_9_alph.Prelude.Float.{FloatOps}
use crypto_trader_ver_9_alph.Runtime.Recovery.{
  Event, ReplayableRuntimeState, RecoveryResult, empty_state, rebuild_from_events, recover, sorted,
}
use crypto_trader_ver_9_alph.Runtime.Recovery.Replay.{
  last_word, order_word, balance_word, fill_word, position_word, rebuild-Holds, rebuild-AreDicts,
}

-- the log's last word where it has one, and what the checkpoint holds where not
abbrev pub or_checkpoint : {A : Type 0} → Option A → Option A → Option A
or_checkpoint none c = c
or_checkpoint (some a) c = some a

lookup-update_or :
    {V : Type 0} (k : String) (d e : Dict V)
    → IsDict e
    → lookup k (update d e) ≡ or_checkpoint (lookup k e) (lookup k d)
lookup-update_or k d e h = ground (arith, lookup-update k d e h)

module _ {F P : Type 0} ⦃o : FloatOps F⦄ where
  -- A recovery that succeeds holds under every key the last word of the sorted log on it, and
  -- what the checkpoint holds where that is nothing: of open orders, balances, fills and positions.
  pub recover_lem :
      (k : String) (checkpoint : Option (ReplayableRuntimeState F P)) (log : List (Event F P))
      (r : RecoveryResult F P)
      → recover checkpoint log ≡ some r
      → let s = r.recovered_state in
        let c = or_else checkpoint empty_state in
        let es = sorted log in
        (lookup k s.open_orders
          ≡ or_checkpoint (last_word (order_word k) none es) (lookup k c.open_orders))
        × (lookup k s.balances
            ≡ or_checkpoint (last_word (balance_word k) none es) (lookup k c.balances))
        × (lookup k s.fills ≡ or_checkpoint (last_word (fill_word k) none es) (lookup k c.fills))
        × (lookup k s.positions
            ≡ or_checkpoint (last_word (position_word k) none es) (lookup k c.positions))
  unfolding recover lookup
  recover_lem k checkpoint log r h = elim (Option-cases (rebuild_from_events (sorted log))) [
    | inl q ↦ absurd (ground arith)
    | inr (t, q) ↦
        let d = rebuild-AreDicts (sorted log) t q in
        let c = or_else checkpoint empty_state in
        ground (
          arith,
          rebuild-Holds k (sorted log) t q,
          lookup-update_or k c.open_orders t.open_orders d.orders_dict,
          lookup-update_or k c.balances t.balances d.balances_dict,
          lookup-update_or k c.fills t.fills d.fills_dict,
          lookup-update_or k c.positions t.positions d.positions_dict,
        )
  ]

  -- An order that is open in the checkpoint is open after every recovery, whatever the log says:
  -- also if the log has closed it.
  recover-open_orders :
      (k : String) (checkpoint : ReplayableRuntimeState F P) (log : List (Event F P))
      (r : RecoveryResult F P)
      → lookup k checkpoint.open_orders ≢ none
      → recover (some checkpoint) log ≡ some r
      → lookup k r.recovered_state.open_orders ≢ none
  recover-open_orders k checkpoint log r ne h =
      λ z. absurd (ground (arith, recover_lem k (some checkpoint) log r h))
