-- ===== src/Execution/Fills.antt =====
-- ver9/execution/fill_reconciliation.py: a fill is added to an order. The method writes the status
-- itself, without the state machine.
use crypto_trader_ver_9_alph.Prelude.{◌≡◌, refl, ◌⊎◌, List, [], ◌∷◌, arith, if◌then◌else◌}
use crypto_trader_ver_9_alph.Prelude.Float.{FloatOps, decimal, add, mul, div, lt, le}
use crypto_trader_ver_9_alph.Execution.Order.{
  partially_filled, filled, cancelled, rejected, failed, ExecutionOrder, err, invalid_transition,
  transition,
}

module _ {F : Type 0} ⦃o : FloatOps F⦄ where
  unfoldable pub apply_fill : ExecutionOrder F → F → F → ExecutionOrder F
  apply_fill order fill_quantity fill_price =
      let previous_notional = mul order.filled_quantity order.average_fill_price in
      let fill_notional = mul fill_quantity fill_price in
      let filled_quantity = add order.filled_quantity fill_quantity in
      record order {
        filled_quantity = filled_quantity;
        average_fill_price =
            if lt (decimal 0 0) filled_quantity
            then div (add previous_notional fill_notional) filled_quantity
            else order.average_fill_price;
        status = if le order.quantity filled_quantity then filled else partially_filled;
      }

  -- Fills applied one after another.
  abbrev pub apply_fills : ExecutionOrder F → List (F × F) → ExecutionOrder F
  apply_fills order [] = order
  apply_fills order ((q, p) ∷ fills) = apply_fills (apply_fill order q p) fills

  -- The quantities of the fills, added to a starting quantity from the left.
  abbrev pub sum_from : F → List (F × F) → F
  sum_from acc [] = acc
  sum_from acc ((q, p) ∷ fills) = sum_from (add acc q) fills

  apply_fills-quantity :
      (order : ExecutionOrder F) (fills : List (F × F))
      → (apply_fills order fills).quantity ≡ order.quantity
  unfolding apply_fill
  apply_fills-quantity order [] = refl
  apply_fills-quantity order ((q, p) ∷ fills) = apply_fills-quantity (apply_fill order q p) fills

  apply_fills-filled_quantity :
      (order : ExecutionOrder F) (fills : List (F × F))
      → (apply_fills order fills).filled_quantity ≡ sum_from order.filled_quantity fills
  unfolding apply_fill
  apply_fills-filled_quantity order [] = refl
  apply_fills-filled_quantity order ((q, p) ∷ fills) =
      apply_fills-filled_quantity (apply_fill order q p) fills

  apply_fills-status :
      (order : ExecutionOrder F) (q p : F) (fills : List (F × F))
      → (apply_fills order ((q, p) ∷ fills)).status ≡ (
          if le order.quantity (sum_from order.filled_quantity ((q, p) ∷ fills))
          then filled
          else partially_filled)
  unfolding apply_fill
  apply_fills-status order q p [] = refl
  apply_fills-status order q p ((q', p') ∷ fills) =
      apply_fills-status (apply_fill order q p) q' p' fills

  -- After one fill or more, in whatever status the order was, its filled quantity is the running
  -- sum of the fills, its quantity is unchanged, and its status is FILLED if that sum reaches the
  -- quantity and PARTIALLY_FILLED if not.
  pub apply_fills_lem :
      (order : ExecutionOrder F) (q p : F) (fills : List (F × F))
      → let after = apply_fills order ((q, p) ∷ fills) in
        let total = sum_from order.filled_quantity ((q, p) ∷ fills) in
        (after.filled_quantity ≡ total)
        × (after.quantity ≡ order.quantity)
        × (after.status ≡ (if le order.quantity total then filled else partially_filled))
  apply_fills_lem order q p fills = (
    apply_fills-filled_quantity order ((q, p) ∷ fills),
    apply_fills-quantity order ((q, p) ∷ fills),
    apply_fills-status order q p fills,
  )

  -- On a cancelled, rejected or failed order a fill writes a status that the state machine
  -- refuses from there.
  apply_fill_escapes :
      (order : ExecutionOrder F) (q p now : F)
      → (order.status ≡ cancelled) ⊎ (order.status ≡ rejected) ⊎ (order.status ≡ failed)
      → let s = (apply_fill order q p).status in
        transition order s now ≡ err (invalid_transition order.status s)
  unfolding apply_fill transition
  apply_fill_escapes order q p now h = ground arith
