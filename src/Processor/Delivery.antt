-- ===== src/Processor/Delivery.antt =====
-- What the bus delivers, in every order of its goroutines.
use monitoring_tool.Prelude.{
  ℕ, ◌≤◌, ◌≡◌, refl, true, false, List, [], ◌∷◌, ◌++◌, ◌∙◌, sym, some, map, arith, length,
  length-append, append_assoc, append-cons, append-nil, ap,
}
use monitoring_tool.Processor.Bus.{
  AlertEvent, EventBus, System, Action, publishes, dispatch, see_stop, see_cancel, cancel, stop,
  start, step, Reach, here, next, new_event_bus, subscribe,
}

module _ {A O : Type 0} where
  -- Every observer is notified of every event, event by event.
  unfoldable pub deliveries : List O → List (AlertEvent A) → List (O × AlertEvent A)
  deliveries os [] = []
  deliveries os (e ∷ es) = map (λ o. (o, e)) os ++ deliveries os es

  deliveries-append :
      (os : List O) (es : List (AlertEvent A)) (e : AlertEvent A)
      → deliveries os (es ++ e ∷ []) ≡ deliveries os es ++ map (λ o. (o, e)) os
  unfolding deliveries
  deliveries-append os [] e = append-nil (map (λ o. (o, e)) os)
  deliveries-append os (d ∷ es) e =
      rw (deliveries-append os es e)
        (sym (append_assoc (map (λ o. (o, d)) os) (deliveries os es) (map (λ o. (o, e)) os)))

  pub record BusInv (os : List O) (cap : ℕ) (s : System A O) : Type 0 where
    pub fixed : s.bus.observers ≡ os
    pub sized : s.bus.event_chan.capacity ≡ cap
    pub open_chan : s.bus.event_chan.closed ≡ false
    pub bounded : length s.bus.event_chan.buffer ≤ cap
    pub fifo : s.accepted ≡ s.dispatched ++ s.bus.event_chan.buffer
    pub complete : s.notified ≡ deliveries os s.dispatched
    pub panic_needs_stop : s.panicked ≡ true → s.bus.stop_closed ≡ true

  dispatch-BusInv :
      (os : List O) (cap : ℕ) (s : System A O) (es : List (AlertEvent A)) {t : System A O}
      → BusInv os cap s
      → s.bus.event_chan.buffer ≡ es
      → step s dispatch ≡ some t
      → BusInv os cap t
  unfolding step
  dispatch-BusInv os cap s [] inv b e = ground arith
  dispatch-BusInv os cap s (x ∷ es) inv b e =
      ground (arith, append-cons s.dispatched x es, deliveries-append os s.dispatched x)

  pub step-BusInv :
      (os : List O) (cap : ℕ) (s : System A O) (a : Action A) {t : System A O}
      → BusInv os cap s
      → step s a ≡ some t
      → BusInv os cap t
  unfolding step
  step-BusInv os cap s (publishes x) inv e = ground (
    arith,
    length-append s.bus.event_chan.buffer (x ∷ []),
    append_assoc s.dispatched s.bus.event_chan.buffer (x ∷ []),
  )
  step-BusInv os cap s dispatch inv e = dispatch-BusInv os cap s s.bus.event_chan.buffer inv refl e
  step-BusInv os cap s see_stop inv e = ground arith
  step-BusInv os cap s see_cancel inv e = ground arith
  step-BusInv os cap s cancel inv e = ground arith
  step-BusInv os cap s stop inv e = ground arith

  -- A new bus with these observers subscribed, in order.
  unfoldable pub subscribed : List O → EventBus A O → EventBus A O
  subscribed [] eb = eb
  subscribed (o ∷ os) eb = subscribed os (subscribe eb o)

  pub subscribed_lem :
      (os : List O) (eb : EventBus A O)
      → subscribed os eb ≡ record eb { observers = eb.observers ++ os }
  unfolding subscribed subscribe
  subscribed_lem [] eb = ground (arith, append-nil eb.observers)
  subscribed_lem (o ∷ os) eb =
      subscribed_lem os (subscribe eb o)
      ∙ ap (λ l. record eb { observers = l }) (append-cons eb.observers o os)

  pub start-BusInv : (os : List O) → BusInv os 200 (start (subscribed os new_event_bus))
  unfolding start new_event_bus deliveries
  start-BusInv os = rw (subscribed_lem os new_event_bus) (ground arith)

  -- A bus made by `NewEventBus` with any observers subscribed, started, and run in any order of its
  -- dispatcher and its callers: it holds at most 200 waiting events and its channel is never closed;
  -- the events that `Publish` accepted are those dispatched and then those waiting, in order; each
  -- dispatched event started exactly one notification for each observer, in the order of events and
  -- of subscription; and it panics only after `Stop` was called before.
  pub Reach-BusInv :
      (os : List O) {s : System A O}
      → Reach (start (subscribed os new_event_bus)) s
      → BusInv os 200 s
  Reach-BusInv os here = start-BusInv os
  Reach-BusInv os (next {t = m} a r e) = step-BusInv os 200 m a (Reach-BusInv os r) e
