-- ===== src/Runtime/Events/Delivery.antt =====
-- Who is called for an event.
use crypto_trader_ver_9_alph.Prelude.{
  ◌≡◌, sym, ◌∙◌, Bool-cases, inl, inr, append-nil, ap, List, [], ◌∷◌, ◌++◌, String, str_eq, eq_iff,
  or_else, if◌then◌else◌, append_assoc,
}
use crypto_trader_ver_9_alph.Prelude.Dict.{Dict, lookup, insert, lookup-insert}
use crypto_trader_ver_9_alph.Runtime.Events.{QueuedEvent, Handler, subscribe, call_all, publish}

module _ {J S : Type 0} where
  -- the subscriptions, in their order, as a bus
  abbrev pub subscribe_all :
      List (String × Handler J S) → Dict (List (Handler J S)) → Dict (List (Handler J S))
  subscribe_all [] d = d
  subscribe_all ((topic, h) ∷ subs) d = subscribe_all subs (subscribe topic h d)

  -- the handlers that were given for one topic
  abbrev pub given_for : String → List (String × Handler J S) → List (Handler J S)
  given_for topic [] = []
  given_for topic ((t, h) ∷ subs) =
      if str_eq t topic then h ∷ given_for topic subs else given_for topic subs

  lookup-subscribe_all :
      (topic : String) (subs : List (String × Handler J S)) (d : Dict (List (Handler J S)))
      → or_else (lookup topic (subscribe_all subs d)) []
        ≡ or_else (lookup topic d) [] ++ given_for topic subs
  unfolding subscribe
  lookup-subscribe_all topic [] d = sym (append-nil _)
  lookup-subscribe_all topic ((t, h) ∷ subs) d =
      lookup-subscribe_all topic subs (subscribe t h d) ∙ added
    where
      added :
          or_else (lookup topic (insert t (or_else (lookup t d) [] ++ h ∷ []) d)) []
            ++ given_for topic subs
          ≡ or_else (lookup topic d) [] ++ given_for topic ((t, h) ∷ subs)
      added = elim (Bool-cases (str_eq t topic)) [
        | inl p ↦
            let e : t ≡ topic = (eq_iff t topic).0 p in
            simp lookup-insert (
              rw p
                (rw e (append_assoc (or_else (lookup topic d) []) (h ∷ []) (given_for topic subs))))
        | inr p ↦ simp lookup-insert (rw p)
      ]

  -- Publishing an event calls exactly the handlers that were subscribed for its type, in the order
  -- of their subscription and up to the first that raises, whatever was subscribed for others.
  publish_lem :
      (event : QueuedEvent J) (subs : List (String × Handler J S)) (s : S)
      → publish event (subscribe_all subs []) s
        ≡ call_all (given_for (event.event_type) subs) event s
  unfolding publish lookup
  publish_lem event subs s =
      ap (λ hs. call_all hs event s) (lookup-subscribe_all event.event_type subs [])
