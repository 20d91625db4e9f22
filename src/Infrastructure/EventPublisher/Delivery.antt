-- ===== src/Infrastructure/EventPublisher/Delivery.antt =====
-- What the in-memory publisher delivers.
use mathlib.Core.List.{append-nil, append_assoc}
use multi_cloud_ai_orchestra.Base.{
  ◌≡◌, refl, sym, ◌∙◌, String, str_eq, List, [], ◌∷◌, ◌++◌, map, Method, Result, ok, raised, skip,
  ◌>>◌, Json, if◌then◌else◌, inl, inr, ◌⊎◌, Bool-cases,
}
use multi_cloud_ai_orchestra.Base.Dict.{Dict, get, get-put}
use multi_cloud_ai_orchestra.Infrastructure.EventPublisher.{
  Event, Publisher, handlers_of, call_handler, call_handlers, publish, publish_batch, subscribe,
}

Result-cases : {E : Type 0} (r : Result E (Unit {0})) → (r ≡ ok tt) ⊎ ((e : E) × (r ≡ raised e))
Result-cases (ok tt) = inl refl
Result-cases (raised e) = inr (e, refl)

-- What is to be delivered for these events: for each in turn, to each handler of its type.
abbrev pub deliveries : {H : Type 0} → Dict (List H) → List Event → List (H × Dict Json)
deliveries handlers [] = []
deliveries handlers ((event_type, payload) ∷ events) =
    map (λ h. (h, payload)) (handlers_of (get event_type handlers)) ++ deliveries handlers events

module _ {H W E : Type 0} (handle : H → Dict Json → Method E W (Unit {0})) where
  -- The handlers are called in this order, up to the first that raises.
  abbrev pub deliver : List (H × Dict Json) → Method E W (Unit {0})
  deliver [] = skip
  deliver ((h, payload) ∷ rest) = handle h payload >> deliver rest

  abbrev with_world : Publisher H W → Result E (Unit {0}) × W → Result E (Unit {0}) × Publisher H W
  with_world s p = (p.0, record s { world = p.1 })

  deliver-append :
      (xs ys : List (H × Dict Json)) (w : W) → deliver (xs ++ ys) w ≡ (deliver xs >> deliver ys) w
  deliver-append [] ys w = refl
  deliver-append ((h, payload) ∷ xs) ys w = elim (Result-cases (handle h payload w).0) [
    | inl e ↦ rw e (deliver-append xs ys (handle h payload w).1)
    | inr (x, e) ↦ rw e refl
  ]

  call_handlers-deliver :
      (handlers : List H) (payload : Dict Json) (s : Publisher H W)
      → call_handlers handle handlers payload s
        ≡ with_world s (deliver (map (λ h. (h, payload)) handlers) s.world)
  unfolding call_handlers call_handler
  call_handlers-deliver [] payload s = refl
  call_handlers-deliver (h ∷ handlers) payload s =
      elim (Result-cases (handle h payload s.world).0) [
        | inl e ↦ rw e (
            call_handlers-deliver handlers payload
              (record s { world = (handle h payload s.world).1 }))
        | inr (x, e) ↦ rw e refl
      ]

  publish-deliver :
      (event_type : String) (payload : Dict Json) (s : Publisher H W)
      → publish handle event_type payload s
        ≡ with_world
            (record s { events = s.events ++ (event_type, payload) ∷ [] })
            (deliver (map (λ h. (h, payload)) (handlers_of (get event_type s.handlers))) s.world)
  unfolding publish
  publish-deliver event_type payload s =
      call_handlers-deliver (handlers_of (get event_type s.handlers)) payload
        (record s { events = s.events ++ (event_type, payload) ∷ [] })

  -- The handlers of an event, called in their order.
  abbrev pub deliver_one : Dict (List H) → Event → Method E W (Unit {0})
  deliver_one handlers (event_type, payload) =
      deliver (map (λ h. (h, payload)) (handlers_of (get event_type handlers)))

  -- The events up to the first with a handler that raises, this one included.
  abbrev pub reached : Dict (List H) → List Event → W → List Event
  reached handlers [] w = []
  reached handlers (event ∷ events) w =
      let (r, w') = deliver_one handlers event w in
      let rest = reached handlers events w' in event ∷ elim r [ ok _ ↦ rest | raised _ ↦ [] ]

  -- How a batch ends.
  pub record IsDelivered (events : List Event) (s : Publisher H W)
      (p : Result E (Unit {0}) × Publisher H W) : Type 0 where
    pub calls : (p.0, p.1.world) ≡ deliver (deliveries s.handlers events) s.world
    pub subscriptions : p.1.handlers ≡ s.handlers
    pub stored : p.1.events ≡ s.events ++ reached s.handlers events s.world
    pub complete : p.0 ≡ ok tt → p.1.events ≡ s.events ++ events

  first_fails :
      (event_type : String) (payload : Dict Json) (events : List Event) (s : Publisher H W) (e : E)
      → (deliver (map (λ h. (h, payload)) (handlers_of (get event_type s.handlers))) s.world).0
        ≡ raised e
      → IsDelivered
          ((event_type, payload) ∷ events)
          s
          (publish_batch handle ((event_type, payload) ∷ events) s)
  unfolding publish_batch
  first_fails event_type payload events s e h =
      rw (publish-deliver event_type payload s, h)
        (record {
          calls = rw (deliver-append, h) refl;
          subscriptions = refl;
          stored = rw h refl;
          complete = λ f. absurd cc;
        })

  -- The publisher after the first event, when no handler raises.
  abbrev next : String → Dict Json → Publisher H W → Publisher H W
  next event_type payload s = record s {
    events = s.events ++ (event_type, payload) ∷ [];
    world = (deliver (map (λ h. (h, payload)) (handlers_of (get event_type s.handlers))) s.world).1;
  }

  goes_on :
      (event_type : String) (payload : Dict Json) (events : List Event) (s : Publisher H W)
      → (deliver (map (λ h. (h, payload)) (handlers_of (get event_type s.handlers))) s.world).0
        ≡ ok tt
      → IsDelivered events
          (next event_type payload s)
          (publish_batch handle events (next event_type payload s))
      → IsDelivered
          ((event_type, payload) ∷ events)
          s
          (publish_batch handle ((event_type, payload) ∷ events) s)
  unfolding publish_batch
  goes_on event_type payload events s h rest =
      rw (publish-deliver event_type payload s, h)
        (record {
          calls = rest.calls ∙ sym (rw (deliver-append, h) refl);
          subscriptions = rest.subscriptions;
          stored =
              rest.stored
              ∙ append_assoc s.events ((event_type, payload) ∷ [])
                  (reached s.handlers events (next event_type payload s).world)
              ∙ sym (rw h refl);
          complete =
              λ f. rest.complete f ∙ append_assoc s.events ((event_type, payload) ∷ []) events;
        })

  batch-IsDelivered :
      (events : List Event) (s : Publisher H W)
      → IsDelivered events s (publish_batch handle events s)
  unfolding publish_batch
  batch-IsDelivered [] s = record {
    calls = refl;
    subscriptions = refl;
    stored = sym (append-nil s.events);
    complete = λ f. sym (append-nil s.events);
  }
  batch-IsDelivered ((event_type, payload) ∷ events) s =
      elim (Result-cases
        (deliver (map (λ h. (h, payload)) (handlers_of (get event_type s.handlers))) s.world).0) [
          | inl h ↦
              goes_on event_type payload events s h
                (batch-IsDelivered events (next event_type payload s))
          | inr (e, h) ↦ first_fails event_type payload events s e h
        ]

  -- A batch is delivered event by event, each to the handlers of its type in the order of their
  -- subscriptions, up to the first handler that raises, with what that handler raises; the
  -- subscriptions stay, and the events are stored after the earlier ones, up to the first with a
  -- handler that raises, this one included: all of them when no handler raises. And a subscription adds the handler after those of its type, and
  -- changes nothing for another type.
  pub publish_batch-IsDelivered :
      (events : List Event) (s : Publisher H W) (event_type other : String) (h : H)
      → IsDelivered events s (publish_batch handle events s)
        × (handlers_of (get other (subscribe event_type h s).handlers) ≡ (
            if str_eq event_type other
            then handlers_of (get event_type s.handlers) ++ h ∷ []
            else handlers_of (get other s.handlers)))
  unfolding subscribe
  publish_batch-IsDelivered events s event_type other h = (
    batch-IsDelivered events s,
    rw (get-put event_type other (handlers_of (get event_type s.handlers) ++ h ∷ []) s.handlers)
        (elim (Bool-cases (str_eq event_type other)) [ inl t ↦ rw t refl | inr f ↦ rw f refl ]),
  )
