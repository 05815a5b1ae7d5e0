-- ===== src/Event/Delivery.antt =====
-- Delivery of events: who is called, and in which order.
use akira_os.Prelude.{
  ℕ, ◌≡◌, refl, true, false, ◌&&◌, none, some, List, [], ◌∷◌, arith, ℤ, leb, if◌then◌else◌,
}
use akira_os.Event.{Event, Subscription, stops, deliver_event, visit}

-- The handlers that an event concerns, with their user data, in the order of the table.
pub listeners : Event → List Subscription → List (ℕ × ℕ)
listeners event [] = []
listeners event (sub ∷ subs) =
    let rest = listeners event subs in
    if sub.in_use && leb sub.type_min event.type && leb event.type sub.type_max
    then elim sub.handler [ none ↦ rest | some h ↦ (h, sub.user_data) ∷ rest ]
    else rest

module _ {W : Type 0} (run_handler : ℕ → Event → ℕ → W → ℤ × W) where
  -- The handlers are called one after another, until one asks to stop.
  pub offer : Event → List (ℕ × ℕ) → W → W
  offer event [] w = w
  offer event ((h, u) ∷ hs) w =
      let (ret, w') = run_handler h event u w in
      elim (stops ret) [ true ↦ w' | false ↦ offer event hs w' ]

  -- Delivery calls exactly the handlers whose subscription is in use and covers the event's type,
  -- in slot order, and no further one once a handler returns a value that is not 0.
  pub deliver_event_lem :
      (event : Event) (subs : List Subscription) (w : W)
      → deliver_event run_handler subs event w ≡ offer event (listeners event subs) w
  unfolding deliver_event visit offer listeners
  deliver_event_lem event [] w = refl
  deliver_event_lem event (sub ∷ subs) w = grind (arith, deliver_event_lem event subs)
