-- ===== src/Runtime/Session/Sequence.antt =====
-- What the sequence tracking counts.
use crypto_trader_ver_9_alph.Prelude.{
  ℕ, ◌+◌, ◌≡◌, refl, Option, none, some, List, [], ◌∷◌, arith, leb, if◌then◌else◌,
}
use crypto_trader_ver_9_alph.Runtime.Session.{Handlers, ExchangeSessionManager, register_message}

-- the numbers of a stream that do not exceed the one before
abbrev pub descents : Option ℕ → List ℕ → ℕ
descents last [] = 0
descents none (x ∷ xs) = descents (some x) xs
descents (some last) (x ∷ xs) = (if leb x last then 1 else 0) + descents (some x) xs

abbrev pub final : Option ℕ → List ℕ → Option ℕ
final last [] = last
final last (x ∷ xs) = final (some x) xs

module _ {F : Type 0} (handlers : Handlers F) where
  abbrev pub register_all : List ℕ → ExchangeSessionManager F → ExchangeSessionManager F
  register_all [] s = s
  register_all (x ∷ xs) s = register_all xs (register_message handlers (some x) s)

  -- Over any stream of numbered messages the gap counter grows by the number of messages whose
  -- number does not exceed that of the message before, and the last number is kept.
  register_all_lem :
      (xs : List ℕ) (s : ExchangeSessionManager F)
      → let t = register_all xs s in
        (t.metrics.sequence_gap_count ≡ s.metrics.sequence_gap_count + descents s.last_sequence xs)
        × (t.last_sequence ≡ final s.last_sequence xs)
  unfolding register_message
  register_all_lem [] s = (omega arith, refl)
  register_all_lem (x ∷ xs) s =
      ground (arith, register_all_lem xs (register_message handlers (some x) s))
