-- ===== src/Stream/Steps.antt =====
-- What one step of the bus, or of the hub, does to what it has dispatched or queued.
use monitoring_tool.Prelude.{◌+◌, ◌≡◌, ◌⊎◌, inl, inr, Bool, true, false, [], ◌∷◌, ◌++◌, some, arith}
use monitoring_tool.Channel.{
  Channel, received, drained, blocked, receive, sent, full, send_panic, try_send,
}
use monitoring_tool.Hub.Defs as Defs
use monitoring_tool.Hub.Defs.{broadcasts, new_hub}
use monitoring_tool.Processor.Bus
use monitoring_tool.Processor.Bus.{
  AlertEvent, EventBus, dispatch, publishes, see_stop, see_cancel, cancel, stop, new_event_bus,
}
use monitoring_tool.Stream.System.{is_broadcast}

abbrev pub is_dispatch : {A : Type 0} → Bus.Action A → Bool
is_dispatch dispatch = true
is_dispatch _ = false

module _ {A O : Type 0} where
  pub bus_rests :
      (s : Bus.System A O) (a : Bus.Action A) {t : Bus.System A O}
      → is_dispatch a ≡ false
      → Bus.step s a ≡ some t
      → t.dispatched ≡ s.dispatched
  unfolding Bus.step
  bus_rests s a h e = ground arith

  pub bus_dispatches :
      (s : Bus.System A O) (e : AlertEvent A) (ch : Channel (AlertEvent A)) {t : Bus.System A O}
      → receive s.bus.event_chan ≡ received e ch
      → Bus.step s dispatch ≡ some t
      → t.dispatched ≡ s.dispatched ++ e ∷ []
  unfolding Bus.step
  bus_dispatches s e ch r on = ground (arith, r, on)

  pub no_event :
      (s : Bus.System A O) {t : Bus.System A O}
      → (receive s.bus.event_chan ≡ drained) ⊎ (receive s.bus.event_chan ≡ blocked)
      → Bus.step s dispatch ≡ some t
      → ⊥
  unfolding Bus.step
  no_event s (inl r) on = ground (arith, r, on)
  no_event s (inr r) on = ground (arith, r, on)

module _ {M : Type 0} where
  pub hub_rests :
      (h : Defs.System M) (a : Defs.Action M) {t : Defs.System M}
      → is_broadcast a ≡ false
      → Defs.step h a ≡ some t
      → (t.queued ≡ h.queued) × (t.dropped ≡ h.dropped)
  unfolding Defs.step
  hub_rests h a k e = ground arith

  pub hub_takes :
      (h : Defs.System M) (m : M) (ch : Channel M) {t : Defs.System M}
      → try_send h.hub.broadcast m ≡ sent ch
      → Defs.step h (broadcasts m) ≡ some t
      → (t.queued ≡ h.queued ++ m ∷ []) × (t.dropped ≡ h.dropped)
  unfolding Defs.step
  hub_takes h m ch r e = ground (arith, r, e)

  pub hub_full :
      (h : Defs.System M) (m : M) {t : Defs.System M}
      → try_send h.hub.broadcast m ≡ full
      → Defs.step h (broadcasts m) ≡ some t
      → (t.queued ≡ h.queued) × (t.dropped ≡ h.dropped + 1)
  unfolding Defs.step
  hub_full h m r e = ground (arith, r, e)

  pub never_closed :
      (h : Defs.System M) (m : M)
      → h.hub.broadcast.closed ≡ false
      → try_send h.hub.broadcast m ≡ send_panic
      → ⊥
  never_closed h m c r = ground (arith, c, r)
