-- ===== src/Broker/Laws.antt =====
-- What waits in the channels after any sequence of calls.
use cronbat.Prelude.{
  ℕ, ◌≤◌, ◌<◌, inl, inr, ◌==◌, List, [], ◌∷◌, ◌++◌, arith, ltb, Bool-cases, length, length-append,
}
use cronbat.Broker.{
  Event, Channels, Broker, new_broker, offer, offer_all, publish, subscribe, without, cancel,
  rest_of, take_from, receive,
}

-- The ids of a channel rise, from above `lo` up to `hi` at most.
pub Rising : ℕ → ℕ → List Event → Type 0
Rising lo hi [] = lo ≤ hi
Rising lo hi (e ∷ es) = (lo < e.id) × Rising e.id hi es

-- A channel in order, with no more events than places
pub record InOrder (hi : ℕ) (ch : List Event) : Type 0 where
  pub rising : Rising 0 hi ch
  pub fits : length ch ≤ 32

pub AllInOrder : ℕ → Channels → Type 0
AllInOrder hi [] = Unit
AllInOrder hi ((k, ch) ∷ subs) = InOrder hi ch × AllInOrder hi subs

Rising-le : (lo hi : ℕ) (ch : List Event) → Rising lo hi ch → lo ≤ hi
unfolding Rising
Rising-le lo hi [] h = h
Rising-le lo hi (e ∷ es) h = omega (arith, h.0, Rising-le e.id hi es h.1)

Rising-widen : (lo hi hi' : ℕ) (ch : List Event) → hi ≤ hi' → Rising lo hi ch → Rising lo hi' ch
unfolding Rising
Rising-widen lo hi hi' [] le h = omega arith
Rising-widen lo hi hi' (e ∷ es) le h = (h.0, Rising-widen e.id hi hi' es le h.1)

Rising-lower : (lo lo' hi : ℕ) (ch : List Event) → lo ≤ lo' → Rising lo' hi ch → Rising lo hi ch
unfolding Rising
Rising-lower lo lo' hi [] le h = omega arith
Rising-lower lo lo' hi (e ∷ es) le h = (omega (arith, h.0), h.1)

Rising-append :
    (lo hi : ℕ) (ch : List Event) (e : Event)
    → hi < e.id
    → Rising lo hi ch
    → Rising lo e.id (ch ++ (e ∷ []))
unfolding Rising
Rising-append lo hi [] e lt h = (omega arith, omega arith)
Rising-append lo hi (x ∷ ch) e lt h = (h.0, Rising-append x.id hi ch e lt h.1)

offer-InOrder :
    (hi : ℕ) (e : Event) (ch : List Event) → hi < e.id → InOrder hi ch → InOrder e.id (offer e ch)
unfolding offer
offer-InOrder hi e ch lt h = elim (Bool-cases (ltb (length ch) 32)) [
  | inl room ↦ rw room (record {
    rising = Rising-append 0 hi ch e lt h.rising;
    fits = ground (arith, room, length-append ch (e ∷ []));
  })
  | inr full ↦
      rw full (record { rising = Rising-widen 0 hi e.id ch (omega arith) h.rising; fits = h.fits })
]

offer_all-AllInOrder :
    (hi : ℕ) (e : Event) (subs : Channels)
    → hi < e.id
    → AllInOrder hi subs
    → AllInOrder e.id (offer_all e subs)
unfolding offer_all AllInOrder
offer_all-AllInOrder hi e [] lt h = tt
offer_all-AllInOrder hi e ((k, ch) ∷ subs) lt h =
    (offer-InOrder hi e ch lt h.0, offer_all-AllInOrder hi e subs lt h.1)

without-AllInOrder :
    (hi k : ℕ) (subs : Channels) → AllInOrder hi subs → AllInOrder hi (without k subs)
unfolding without AllInOrder
without-AllInOrder hi k [] h = tt
without-AllInOrder hi k ((j, ch) ∷ subs) h = elim (Bool-cases (j == k)) [
  | inl e ↦ rw e (without-AllInOrder hi k subs h.1)
  | inr e ↦ rw e (h.0, without-AllInOrder hi k subs h.1)
]

rest_of-InOrder : (hi : ℕ) (ch : List Event) → InOrder hi ch → InOrder hi (rest_of ch)
unfolding Rising
rest_of-InOrder hi [] h = h
rest_of-InOrder hi (e ∷ es) h = record {
  rising = Rising-lower 0 e.id hi es (omega arith) h.rising.1;
  fits = omega (arith, h.fits);
}

take_from-AllInOrder :
    (hi k : ℕ) (subs : Channels) → AllInOrder hi subs → AllInOrder hi (take_from k subs)
unfolding take_from AllInOrder
take_from-AllInOrder hi k [] h = tt
take_from-AllInOrder hi k ((j, ch) ∷ subs) h = elim (Bool-cases (j == k)) [
  | inl e ↦ rw e (rest_of-InOrder hi ch h.0, take_from-AllInOrder hi k subs h.1)
  | inr e ↦ rw e (h.0, take_from-AllInOrder hi k subs h.1)
]

-- The brokers that calls lead to, one after the other, from a new one.
pub data Reached : Broker → Type 0 where
  created : Reached new_broker
  published : (now : ℕ) (evt : Event) (b : Broker) → Reached b → Reached (publish now evt b)
  subscribed : (b : Broker) → Reached b → Reached (subscribe b).1
  cancelled : (k : ℕ) (b : Broker) → Reached b → Reached (cancel k b)
  received : (k : ℕ) (b : Broker) → Reached b → Reached (receive k b)

-- After any sequence of calls, the events that wait in a channel have rising ids, none above the
-- last one given out, and there are at most 32 of them.
pub Reached-AllInOrder : (b : Broker) → Reached b → AllInOrder b.next_id b.subs
unfolding publish subscribe cancel receive AllInOrder Rising
Reached-AllInOrder _ Reached.created = tt
Reached-AllInOrder _ (Reached.published now evt b r) =
    offer_all-AllInOrder b.next_id _ b.subs (omega arith) (Reached-AllInOrder b r)
Reached-AllInOrder _ (Reached.subscribed b r) =
    (record { rising = omega arith; fits = omega arith }, Reached-AllInOrder b r)
Reached-AllInOrder _ (Reached.cancelled k b r) =
    without-AllInOrder b.next_id k b.subs (Reached-AllInOrder b r)
Reached-AllInOrder _ (Reached.received k b r) =
    take_from-AllInOrder b.next_id k b.subs (Reached-AllInOrder b r)
