-- ===== src/App/Draining.antt =====
-- What `shutdown` waits for comes about: the goroutines that are told to stop return.
use monitoring_tool.Prelude.{enabled, ◌≡◌, refl, ◌∙◌, Bool, true, false, some, arith}
use monitoring_tool.Collector.Watcher
use monitoring_tool.Collector.Watcher.{
  Watching, Dispatching, selecting, submitting, dispatch_returned, watch_returned,
}
use monitoring_tool.App.System.{is_watcher}

module _ {E : Type 0} where
  abbrev Told : Watcher.System E → Type 0
  Told w = (w.panicked ≡ false) × (w.stop_closed ≡ true)

  abbrev Moving : Watcher.System E → Watcher.Action E → Watching → Dispatching E → Type 0
  Moving w a l d =
      (t : Watcher.System E) × (Watcher.step w a ≡ some t)
      × Told t
      × (t.watching ≡ l)
      × (t.dispatching ≡ d)

  loop_goes :
      (w : Watcher.System E)
      → Told w
      → w.watching ≡ Watcher.looping
      → Moving w Watcher.loop watch_returned w.dispatching
  unfolding Watcher.step
  loop_goes w (c, f) h =
      let (t, on) = enabled (Watcher.step w Watcher.loop) (λ stuck. ground arith) in
      (t, on, (ground arith, ground arith), ground arith, ground arith)

  dial_goes :
      (w : Watcher.System E)
      → Told w
      → w.watching ≡ Watcher.dialing
      → Moving w (Watcher.dial false) Watcher.looping w.dispatching
  unfolding Watcher.step
  dial_goes w (c, f) h =
      let (t, on) = enabled (Watcher.step w (Watcher.dial false)) (λ stuck. ground arith) in
      (t, on, (ground arith, ground arith), ground arith, ground arith)

  leave_goes :
      (w : Watcher.System E)
      → Told w
      → w.watching ≡ Watcher.connected
      → Moving w Watcher.leave_watch Watcher.looping w.dispatching
  unfolding Watcher.step
  leave_goes w (c, f) h =
      let (t, on) = enabled (Watcher.step w Watcher.leave_watch) (λ stuck. ground arith) in
      (t, on, (ground arith, ground arith), ground arith, ground arith)

  dispatch_goes :
      (w : Watcher.System E)
      → Told w
      → w.dispatching ≡ selecting
      → Moving w Watcher.leave_dispatch w.watching dispatch_returned
  unfolding Watcher.step
  dispatch_goes w (c, f) h =
      let (t, on) = enabled (Watcher.step w Watcher.leave_dispatch) (λ stuck. ground arith) in
      (t, on, (ground arith, ground arith), ground arith, ground arith)

-- The dispatcher is not in SubmitWithContext.
abbrev pub is_idle : {E : Type 0} → Dispatching E → Bool
is_idle (submitting e) = false
is_idle _ = true

-- `Good` is what a step of the watcher's own goroutines keeps.
module _ {E : Type 0} (Good : Watcher.System E → Type 0)
    (keep : (w t : Watcher.System E) (a : Watcher.Action E)
      → Good w
      → is_watcher a ≡ true
      → Watcher.step w a ≡ some t
      → Good t) where
  abbrev Left : Watcher.System E → Type 0
  Left w =
      (t : Watcher.System E) × Good t
      × (t.watching ≡ watch_returned)
      × (t.dispatching ≡ w.dispatching)

  leaves_loop : (w : Watcher.System E) → Good w → Told w → w.watching ≡ Watcher.looping → Left w
  leaves_loop w g told h =
      let (t, on, _, l, d) = loop_goes w told h in (t, keep w t Watcher.loop g refl on, l, d)

  leaves_watch : (w : Watcher.System E) (l : Watching) → Good w → Told w → w.watching ≡ l → Left w
  leaves_watch w Watcher.looping g told h = leaves_loop w g told h
  leaves_watch w Watcher.dialing g told h =
      let (t, on, still, l, d) = dial_goes w told h in
      let (u, good, gone, same) = leaves_loop t (keep w t _ g refl on) still l in
      (u, good, gone, same ∙ d)
  leaves_watch w Watcher.connected g told h =
      let (t, on, still, l, d) = leave_goes w told h in
      let (u, good, gone, same) = leaves_loop t (keep w t _ g refl on) still l in
      (u, good, gone, same ∙ d)
  leaves_watch w watch_returned g told h = (w, g, h, refl)

  -- A watcher that is told to stop and has no submission in hand returns.
  pub drains :
      (w : Watcher.System E) (d : Dispatching E)
      → Good w
      → Told w
      → w.dispatching ≡ d
      → is_idle d ≡ true
      → (t : Watcher.System E) × Good t
        × (t.watching ≡ watch_returned)
        × (t.dispatching ≡ dispatch_returned)
  drains w selecting g told h i =
      let (t, on, still, _, gone) = dispatch_goes w told h in
      let (u, good, l, same) = leaves_watch t t.watching (keep w t _ g refl on) still refl in
      (u, good, l, same ∙ gone)
  drains w dispatch_returned g told h i =
      let (u, good, l, same) = leaves_watch w w.watching g told refl in (u, good, l, same ∙ h)
  drains w (submitting e) g told h i = cc
