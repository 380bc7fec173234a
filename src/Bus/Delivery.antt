-- ===== src/Bus/Delivery.antt =====
-- What subscribers of the event bus receive.
use blackgrid.Prelude.{
  ℕ, zero, if-true, if-false, ==_refl, Bool-cases, inl, inr, suc, ap, ◌∙◌, sym, ◌≡◌, ◌+◌, ltb, refl,
  true, false, if◌then◌else◌, ◌&&◌, some, List, [], ◌∷◌, ◌++◌, length, map, find_by, arith,
  length-append,
}
use blackgrid.Model.{Event}
use blackgrid.Bus.{
  EventFilter, Subscriber, EventBus, subscriber_id_of, buffer_size, event_matches, offer,
  publish_to_bus, subscribe, shutdown,
}

abbrev pub publish_all_to : List Event → EventBus → EventBus
publish_all_to [] b = b
publish_all_to (e ∷ es) b = publish_all_to es (publish_to_bus e b)

-- The events that pass a filter, up to a bound.
abbrev pub accepted : EventFilter → ℕ → List Event → List Event
accepted f zero es = []
accepted f (suc room) [] = []
accepted f (suc room) (e ∷ es) =
    if event_matches e f then e ∷ accepted f room es else accepted f (suc room) es

find_by-map :
    {A : Type 0} (key : A → ℕ) (g : A → A) (k : ℕ) (xs : List A) (x : A)
    → ((y : A) → key (g y) ≡ key y)
    → find_by key k xs ≡ some x
    → find_by key k (map g xs) ≡ some (g x)
find_by-map key g k [] x same found = cc
find_by-map key g k (y ∷ xs) x same found = ground (arith, same y, find_by-map key g k xs x same)

offer_id : (e : Event) (x : Subscriber) → (offer e x).id ≡ x.id
offer_id e x = ground arith

publish-found :
    (e : Event) (b : EventBus) (k : ℕ) (x : Subscriber)
    → b.closed ≡ false
    → find_by subscriber_id_of k b.subscribers ≡ some x
    → (find_by subscriber_id_of k (publish_to_bus e b).subscribers ≡ some (offer e x))
      × ((publish_to_bus e b).closed ≡ false)
unfolding publish_to_bus
publish-found e b k x live found =
    let after = find_by-map subscriber_id_of (offer e) k b.subscribers x (offer_id e) found in
    (ground (arith, live, after), ground (arith, live))

append_assoc : (xs ys zs : List Event) → (xs ++ ys) ++ zs ≡ xs ++ (ys ++ zs)
append_assoc [] ys zs = refl
append_assoc (x ∷ xs) ys zs = ap (λ l. x ∷ l) (append_assoc xs ys zs)

append_nil : (xs : List Event) → xs ++ [] ≡ xs
append_nil [] = refl
append_nil (x ∷ xs) = ap (λ l. x ∷ l) (append_nil xs)

abbrev with_buffer : Subscriber → List Event → Subscriber
with_buffer x es = record x { buffer = es }

offer_full : (e : Event) (x : Subscriber) → length x.buffer + 0 ≡ buffer_size → offer e x ≡ x
offer_full e x full = ground (arith, full)

offer_rejected : (e : Event) (x : Subscriber) → event_matches e x.filter ≡ false → offer e x ≡ x
offer_rejected e x failing = if-false _ _ (ap (λ m. m && ltb (length x.buffer) buffer_size) failing)

offer_accepted :
    (e : Event) (x : Subscriber) (room : ℕ)
    → event_matches e x.filter ≡ true
    → length x.buffer + suc room ≡ buffer_size
    → offer e x ≡ with_buffer x (x.buffer ++ e ∷ [])
offer_accepted e x room passing full =
    if-true _ _ (ap (λ m. m && ltb (length x.buffer) buffer_size) passing ∙ has_room)
  where
    has_room : ltb (length x.buffer) buffer_size ≡ true
    has_room = ground (arith, full)

delivered :
    (es : List Event) (b : EventBus) (k room : ℕ) (x : Subscriber)
    → b.closed ≡ false
    → find_by subscriber_id_of k b.subscribers ≡ some x
    → length x.buffer + room ≡ buffer_size
    → find_by subscriber_id_of k (publish_all_to es b).subscribers
      ≡ some (with_buffer x (x.buffer ++ accepted x.filter room es))
delivered [] b k zero x live found full =
    found ∙ ap (λ l. some (with_buffer x l)) (sym (append_nil x.buffer))
delivered [] b k (suc room) x live found full =
    found ∙ ap (λ l. some (with_buffer x l)) (sym (append_nil x.buffer))
delivered (e ∷ es) b k zero x live found full =
    let (there, open_still) = publish-found e b k x live found in
    delivered es (publish_to_bus e b) k zero x open_still (there ∙ ap some (offer_full e x full))
      full
delivered (e ∷ es) b k (suc room) x live found full =
    let (there, open_still) = publish-found e b k x live found in
    elim (Bool-cases (event_matches e x.filter)) [
      | inl passing ↦
          delivered es (publish_to_bus e b) k room (with_buffer x (x.buffer ++ e ∷ [])) open_still
            (there ∙ ap some (offer_accepted e x room passing full))
            (omega (arith, full, length-append x.buffer (e ∷ [])))
          ∙ ap (λ l. some (with_buffer x l))
              (append_assoc x.buffer (e ∷ []) (accepted x.filter room es)
                ∙ ap (λ l. x.buffer ++ l)
                    (sym (
                      if-true (e ∷ accepted x.filter room es) (accepted x.filter (suc room) es)
                        passing)))
      | inr failing ↦
          delivered es (publish_to_bus e b) k (suc room) x open_still
            (there ∙ ap some (offer_rejected e x failing)) full
          ∙ ap (λ l. some (with_buffer x (x.buffer ++ l))) (sym (if-false _ _ failing))
    ]

-- A subscriber that subscribes while the bus is open and does not read gets, of the events published
-- after that, the first hundred that pass its filter, in their order; the rest are dropped.
pub subscribe-publish_all_to :
    (f : EventFilter) (es : List Event) (b : EventBus)
    → b.closed ≡ false
    → find_by subscriber_id_of (subscribe f b).0 (publish_all_to es (subscribe f b).1).subscribers
      ≡ some (record { id = b.next_id; filter = f; buffer = accepted f buffer_size es })
unfolding subscribe
subscribe-publish_all_to f es b live =
    delivered es (subscribe f b).1 b.next_id buffer_size
      (record { id = b.next_id; filter = f; buffer = [] }) live (if-true _ _ (==_refl b.next_id))
      refl

closed_publish_all_to : (es : List Event) (b : EventBus) → b.closed ≡ true → publish_all_to es b ≡ b
unfolding publish_to_bus
closed_publish_all_to [] b h = refl
closed_publish_all_to (e ∷ es) b h =
    ap (publish_all_to es) (if-true _ _ h) ∙ closed_publish_all_to es b h

-- After a shutdown every channel that was open is closed and published events change nothing; but a
-- subscription that is made then is taken in, gets no event, and its channel is not closed.
shutdown-subscribe :
    (f : EventFilter) (es : List Event) (b : EventBus)
    → (publish_all_to es (shutdown b) ≡ shutdown b)
      × ((shutdown b).closed_channels ≡ b.subscribers ++ b.closed_channels)
      × (find_by subscriber_id_of
            (subscribe f (shutdown b)).0
            (publish_all_to es (subscribe f (shutdown b)).1).subscribers
          ≡ some (record { id = b.next_id; filter = f; buffer = [] }))
      × ((publish_all_to es (subscribe f (shutdown b)).1).closed_channels
          ≡ (shutdown b).closed_channels)
unfolding subscribe shutdown
shutdown-subscribe f es b =
    let still = closed_publish_all_to es (subscribe f (shutdown b)).1 refl in
    (
      closed_publish_all_to es (shutdown b) refl,
      refl,
      ap (λ (c : EventBus). find_by subscriber_id_of b.next_id c.subscribers) still
          ∙ if-true _ _ (==_refl b.next_id),
      ap (λ (c : EventBus). c.closed_channels) still,
    )
