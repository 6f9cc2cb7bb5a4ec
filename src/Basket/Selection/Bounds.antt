-- ===== src/Basket/Selection/Bounds.antt =====
-- What the selection keeps: its size, its identifiers and who can be in it.
use crypto_trader_ver_9_alph.Prelude.{
  ℕ, ◌+◌, ◌==◌, ◌≤◌, ◌<◌, ◌≡◌, refl, sym, ap, subst, ◌∙◌, inl, inr, Bool, true, false, ◌&&◌, Option,
  List, [], ◌∷◌, ◌++◌, map, String, length, length-append, map-append, ltb, leb, select, All, arith,
  Bool-cases, Option-cases,
}
use crypto_trader_ver_9_alph.Prelude.Dict.{mem, AreDistinct, AreDistinct-snoc}
use crypto_trader_ver_9_alph.Prelude.Float.{FloatOps, lt}
use crypto_trader_ver_9_alph.Prelude.Text.{TextOps}
use crypto_trader_ver_9_alph.Basket.{
  BasketRow, BasketOptimizer, id_of, symbol_of, is_eligible, score_of,
}
use crypto_trader_ver_9_alph.Basket.Selection.{
  Shared, Picks, Scores, rows_of, number_from, write_scores, rescore, scores_of, refusal, pick,
  consider, run_pass, insert_ranked, ranked_rows, passes, select_rows, no_picks,
}

module _ {F A : Type 0} (f : BasketRow F → A)
    (kept : (x : Scores F) (r : BasketRow F) → f (write_scores x r) ≡ f r) where
  -- What the four scores do not touch, a write to a shared row leaves alone.
  map-rescore :
      (k : ℕ) (x : Scores F) (rs : List (Shared F))
      → map f (rows_of (rescore k x rs)) ≡ map f (rows_of rs)
  map-rescore k x [] = refl
  map-rescore k x ((j, r) ∷ rs) = elim (Bool-cases (j == k)) [
    | inl e ↦ rw e (
        ap (λ xs. f (write_scores x r) ∷ xs) (map-rescore k x rs)
        ∙ ap (λ y. y ∷ map f (rows_of rs)) (kept x r))
    | inr e ↦ rw e (ap (λ xs. f r ∷ xs) (map-rescore k x rs))
  ]

length-rescore :
    {F : Type 0} (k : ℕ) (x : Scores F) (rs : List (Shared F)) → length (rescore k x rs) ≡ length rs
length-rescore k x [] = refl
length-rescore k x ((j, r) ∷ rs) = omega (arith, length-rescore k x rs)

map-snoc :
    {F A : Type 0} (f : BasketRow F → A) (rs : List (Shared F)) (k : ℕ) (r : BasketRow F)
    → map f (rows_of (rs ++ (k, r) ∷ [])) ≡ map f (rows_of rs) ++ f r ∷ []
map-snoc f rs k r =
    ap (map f) (map-append (λ x. x.1) rs ((k, r) ∷ [])) ∙ map-append f (rows_of rs) (r ∷ [])

module _ {F : Type 0} ⦃o : FloatOps F⦄ ⦃t : TextOps⦄ (age_days : Option String → F)
    (optimizer : BasketOptimizer F) where
  -- The sets say what is selected, no identifier is selected twice, every row is eligible, and
  -- there are not more than `max_positions`.
  pub record IsChoice (p : Picks F) : Type 0 where
    pub ids : p.selected_ids ≡ map id_of (rows_of p.selected)
    pub symbols : p.selected_symbols ≡ map symbol_of (rows_of p.selected)
    pub eligible : All (λ b. b ≡ true) (map is_eligible (rows_of p.selected))
    pub distinct : AreDistinct p.selected_ids
    pub few : length p.selected ≤ optimizer.max_positions

  All-snoc : (bs : List Bool) → All (λ b. b ≡ true) bs → All (λ b. b ≡ true) (bs ++ true ∷ [])
  All-snoc [] h = (refl, tt)
  All-snoc (b ∷ bs) h = (h.0, All-snoc bs h.1)

  pick-IsChoice :
      (k : ℕ) (r : BasketRow F) (p : Picks F)
      → is_eligible r ≡ true
      → mem (id_of r) p.selected_ids ≡ false
      → length p.selected < optimizer.max_positions
      → IsChoice p
      → IsChoice (pick age_days optimizer k r p)
  pick-IsChoice k r p e n l c = record {
    ids = ap (λ xs. xs ++ id_of r ∷ []) c.ids ∙ sym (map-snoc id_of p.selected k r);
    symbols = ap (λ xs. xs ++ symbol_of r ∷ []) c.symbols ∙ sym (map-snoc symbol_of p.selected k r);
    eligible =
        subst (All (λ b. b ≡ true))
          (sym (
            map-snoc is_eligible p.selected k r
            ∙ ap (λ b. map is_eligible (rows_of p.selected) ++ b ∷ []) e))
          (All-snoc (map is_eligible (rows_of p.selected)) c.eligible);
    distinct = AreDistinct-snoc p.selected_ids (id_of r) c.distinct n;
    few = omega (arith, length-append p.selected ((k, r) ∷ []));
  }

  rescore-IsChoice :
      (k : ℕ) (x : Scores F) (p : Picks F)
      → IsChoice p
      → IsChoice (record p { selected = rescore k x p.selected })
  unfolding is_eligible
  rescore-IsChoice k x p c = record {
    ids = c.ids ∙ sym (map-rescore id_of (λ x r. refl) k x p.selected);
    symbols = c.symbols ∙ sym (map-rescore symbol_of (λ x r. refl) k x p.selected);
    eligible =
        subst (All (λ b. b ≡ true)) (sym (map-rescore is_eligible (λ x r. refl) k x p.selected))
          c.eligible;
    distinct = c.distinct;
    few = omega (arith, length-rescore k x p.selected, c.few);
  }

  consider-IsChoice :
      (relaxed : Bool) (k : ℕ) (r : BasketRow F) (p : Picks F)
      → is_eligible r ≡ true
      → length p.selected < optimizer.max_positions
      → IsChoice p
      → IsChoice (consider age_days optimizer relaxed (k, r) p)
  unfolding consider is_eligible
  consider-IsChoice relaxed k r p e l c =
      let x = scores_of age_days optimizer r (rows_of p.selected) in
      let p' : Picks F = record p { selected = rescore k x p.selected } in
      let c' : IsChoice p' = rescore-IsChoice k x p c in
      elim (Option-cases (refusal age_days optimizer relaxed r x.basket p')) [
        | inr (reason, q) ↦
            rw (q, consider)
              (record {
                ids = c'.ids;
                symbols = c'.symbols;
                eligible = c'.eligible;
                distinct = c'.distinct;
                few = c'.few;
              })
        | inl q ↦
            let n : mem (id_of r) p.selected_ids ≡ false = ground arith in
            rw (q, consider)
              (pick-IsChoice k (write_scores x r) p' e n
                (omega (arith, length-rescore k x p.selected)) c')
      ]

  run_pass-IsChoice :
      (relaxed : Bool) (ranked : List (Shared F)) (p : Picks F)
      → All (λ b. b ≡ true) (map is_eligible (rows_of ranked))
      → IsChoice p
      → IsChoice (run_pass age_days optimizer relaxed ranked p)
  unfolding run_pass
  run_pass-IsChoice relaxed [] p h c = c
  run_pass-IsChoice relaxed ((k, r) ∷ ranked) p h c =
      elim (Bool-cases (leb optimizer.max_positions (length p.selected))) [
        | inl e ↦ rw (e, run_pass) c
        | inr e ↦
            rw (e, run_pass)
              (run_pass-IsChoice relaxed ranked (consider age_days optimizer relaxed (k, r) p) h.1
                (consider-IsChoice relaxed k r p h.0 (ground arith) c))
      ]

  no_picks-IsChoice : IsChoice no_picks
  no_picks-IsChoice = record {
    ids = refl;
    symbols = refl;
    eligible = tt;
    distinct = tt;
    few = omega arith;
  }

  insert_ranked-eligible :
      (r : BasketRow F) (rs : List (BasketRow F))
      → is_eligible r ≡ true
      → All (λ b. b ≡ true) (map is_eligible rs)
      → All (λ b. b ≡ true) (map is_eligible (insert_ranked age_days optimizer r rs))
  unfolding insert_ranked
  insert_ranked-eligible r [] e h = (e, tt)
  insert_ranked-eligible r (s ∷ rs) e h =
      elim (Bool-cases (lt (score_of age_days r) (score_of age_days s))) [
        | inl q ↦ rw (q, insert_ranked) (h.0, insert_ranked-eligible r rs e h.1)
        | inr q ↦ rw (q, insert_ranked) (e, h)
      ]

  ranked_rows-eligible :
      (rs : List (BasketRow F))
      → All
          (λ b. b ≡ true)
          (map is_eligible (ranked_rows age_days optimizer (select is_eligible rs)))
  unfolding ranked_rows
  ranked_rows-eligible [] = tt
  ranked_rows-eligible (r ∷ rs) = elim (Bool-cases (is_eligible r)) [
    | inl e ↦ rw e (
        insert_ranked-eligible r (ranked_rows age_days optimizer (select is_eligible rs)) e
          (ranked_rows-eligible rs))
    | inr e ↦ rw e (ranked_rows-eligible rs)
  ]

  number_from-eligible :
      (n : ℕ) (rs : List (BasketRow F))
      → All (λ b. b ≡ true) (map is_eligible rs)
      → All (λ b. b ≡ true) (map is_eligible (rows_of (number_from n rs)))
  number_from-eligible n [] h = tt
  number_from-eligible n (r ∷ rs) h = (h.0, number_from-eligible (n + 1) rs h.1)

  pub select_rows-IsChoice :
      (candidates : List (BasketRow F)) → IsChoice (select_rows age_days optimizer candidates)
  unfolding select_rows passes
  select_rows-IsChoice candidates =
      let ranked = number_from 0 (ranked_rows age_days optimizer (select is_eligible candidates)) in
      let h =
        number_from-eligible 0 (ranked_rows age_days optimizer (select is_eligible candidates))
          (ranked_rows-eligible candidates) in
      let first = run_pass-IsChoice false ranked no_picks h no_picks-IsChoice in
      let second =
        run_pass-IsChoice true ranked (run_pass age_days optimizer false ranked no_picks) h first in
      elim (Bool-cases (
        optimizer.soft_fill
        && ltb (length (run_pass age_days optimizer false ranked no_picks).selected)
            optimizer.min_positions)) [
              | inl e ↦ rw (e, passes) second
              | inr e ↦ rw (e, passes) first
            ]

  consider-AreDistinct :
      (x : Shared F) (p : Picks F)
      → optimizer.enforce_unique_symbols ≡ true
      → AreDistinct p.selected_symbols
      → AreDistinct (consider age_days optimizer false x p).selected_symbols
  unfolding consider
  consider-AreDistinct (k, r) p u d =
      let x = scores_of age_days optimizer r (rows_of p.selected) in
      let p' : Picks F = record p { selected = rescore k x p.selected } in
      elim (Option-cases (refusal age_days optimizer false r x.basket p')) [
        | inr (reason, q) ↦ rw (q, consider) d
        | inl q ↦
            let n : mem (symbol_of r) p.selected_symbols ≡ false = ground arith in
            rw (q, consider) (AreDistinct-snoc p.selected_symbols (symbol_of r) d n)
      ]

  run_pass-AreDistinct :
      (ranked : List (Shared F)) (p : Picks F)
      → optimizer.enforce_unique_symbols ≡ true
      → AreDistinct p.selected_symbols
      → AreDistinct (run_pass age_days optimizer false ranked p).selected_symbols
  unfolding run_pass
  run_pass-AreDistinct [] p u d = d
  run_pass-AreDistinct (x ∷ ranked) p u d =
      elim (Bool-cases (leb optimizer.max_positions (length p.selected))) [
        | inl e ↦ rw (e, run_pass) d
        | inr e ↦
            rw (e, run_pass)
              (run_pass-AreDistinct ranked (consider age_days optimizer false x p) u
                (consider-AreDistinct x p u d))
      ]

  pub select_rows-symbols :
      (candidates : List (BasketRow F))
      → optimizer.enforce_unique_symbols ≡ true
      → optimizer.soft_fill ≡ false
      → AreDistinct (select_rows age_days optimizer candidates).selected_symbols
  unfolding select_rows passes
  select_rows-symbols candidates u e =
      let ranked = number_from 0 (ranked_rows age_days optimizer (select is_eligible candidates)) in
      let first = run_pass-AreDistinct ranked no_picks u tt in
      elim (Bool-cases (
        optimizer.soft_fill
        && ltb (length (run_pass age_days optimizer false ranked no_picks).selected)
            optimizer.min_positions)) [ inl q ↦ ground arith | inr q ↦ rw (q, passes) first ]
