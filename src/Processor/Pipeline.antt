-- ===== src/Processor/Pipeline.antt =====
-- From a list of alerts to the store and the bus.
use monitoring_tool.Prelude.{
  ℕ, zero, suc, ◌+◌, ◌-◌, ◌≡◌, refl, ◌∙◌, ◌⊎◌, inl, inr, Bool, true, false, String, List, [], ◌∷◌,
  ◌++◌, none, some, arith, length, length-append, ap, take, take-nil, count_by, Option-cases,
  append-nil, append-cons,
}
use monitoring_tool.Models.{Alert}
use monitoring_tool.Repository.{AlertRepo, RepoLaws}
use monitoring_tool.Processor.Bus.{AlertEvent, EventBus, publish}
use monitoring_tool.Processor.StateManager.{Shared, event_at, process_alert, process_all}

module _ {A O : Type 0} where
  -- A burst of events on a bus that is not drained meanwhile.
  unfoldable pub publish_all : EventBus A O → List (AlertEvent A) → EventBus A O
  publish_all eb [] = eb
  publish_all eb (e ∷ es) = publish_all (publish eb e) es

  abbrev room : EventBus A O → ℕ
  room eb = eb.event_chan.capacity - length eb.event_chan.buffer

  publish-room :
      (eb : EventBus A O) (e : AlertEvent A) (n : ℕ)
      → eb.event_chan.closed ≡ false
      → room eb ≡ suc n
      → (room (publish eb e) ≡ n)
        × ((publish eb e).event_chan.buffer ≡ eb.event_chan.buffer ++ e ∷ [])
        × ((publish eb e).event_chan.closed ≡ false)
  unfolding publish
  publish-room eb e n c r = ground (arith, length-append eb.event_chan.buffer (e ∷ []))

  publish_full :
      (eb : EventBus A O) (e : AlertEvent A)
      → eb.event_chan.closed ≡ false
      → room eb ≡ 0
      → publish eb e ≡ eb
  unfolding publish
  publish_full eb e c r = ground arith

  publish_all_lem :
      (n : ℕ) (eb : EventBus A O) (es : List (AlertEvent A))
      → eb.event_chan.closed ≡ false
      → room eb ≡ n
      → (publish_all eb es).event_chan.buffer ≡ eb.event_chan.buffer ++ take n es
  unfolding publish_all
  publish_all_lem n eb [] c r =
      ground (arith, take-nil {A = AlertEvent A} n, append-nil eb.event_chan.buffer)
  publish_all_lem zero eb (e ∷ es) c r =
      ap (λ b. (publish_all b es).event_chan.buffer) (publish_full eb e c r)
      ∙ publish_all_lem zero eb es c r
  publish_all_lem (suc n) eb (e ∷ es) c r =
      let (r', b, c') = publish-room eb e n c r in
      publish_all_lem n (publish eb e) es c' r'
      ∙ ap (λ l. l ++ take n es) b
      ∙ append-cons eb.event_chan.buffer e (take n es)

module _ {F J S O : Type 0} (repo : AlertRepo F J S) {alerts : S → List (Alert F J)}
    (laws : RepoLaws repo alerts) where
  -- The two outcomes of `ProcessAlert`.
  abbrev pub CreateOutcome : Shared F J S O → Alert F J → ℕ → Type 0
  CreateOutcome sh a now =
      let (sh', created, failure) = process_alert repo sh a now in
      ((created ≡ true)
        × (failure ≡ none)
        × (sh'.bus ≡ publish sh.bus (event_at a now))
        × ((p : Alert F J → Bool)
            → count_by p (alerts sh'.store) ≡ count_by p (a ∷ alerts sh.store)))
      ⊎ ((e : String) × (created ≡ false)
          × (failure ≡ some e)
          × (sh'.bus ≡ sh.bus)
          × (alerts sh'.store ≡ alerts sh.store))

  -- What a batch leaves in the channel of events and in the store.
  abbrev pub BatchOutcome : Shared F J S O → List (Alert F J × ℕ) → Type 0
  BatchOutcome sh batch =
      let (sh', events) = process_all repo sh batch in
      (sh'.bus.event_chan.buffer
        ≡ sh.bus.event_chan.buffer
          ++ take (sh.bus.event_chan.capacity - length sh.bus.event_chan.buffer) events)
      × ((p : Alert F J → Bool)
          → count_by p (alerts sh'.store)
            ≡ count_by (λ e. p e.alert) events + count_by p (alerts sh.store))

  -- `ProcessAlert` on every path: the alert is stored, and then published once; or the store's error
  -- is returned, nothing is stored and nothing is published.
  pub process_alert_cases : (sh : Shared F J S O) (a : Alert F J) (now : ℕ) → CreateOutcome sh a now
  unfolding process_alert
  process_alert_cases sh a now = elim (Option-cases (repo.create sh.store a).1) [
    | inl fine ↦ inl (
      ground arith,
      ground arith,
      ground arith,
      λ p. ground (arith, laws.created sh.store a (repo.create sh.store a).0 (ground arith) p),
    )
    | inr (e, failed) ↦ inr (
      e,
      ground arith,
      ground arith,
      ground arith,
      ground (arith, laws.refused sh.store a (repo.create sh.store a).0 e),
    )
  ]

  -- Over any list of alerts: the store gains exactly the alerts that were created, and the bus is
  -- what publishing just their events, in order, makes of it.
  pub process_all_lem :
      (sh : Shared F J S O) (batch : List (Alert F J × ℕ))
      → let (sh', events) = process_all repo sh batch in
        (sh'.bus ≡ publish_all sh.bus events)
        × ((p : Alert F J → Bool)
            → count_by p (alerts sh'.store)
              ≡ count_by (λ e. p e.alert) events + count_by p (alerts sh.store))
  unfolding process_all publish_all
  process_all_lem sh [] = (refl, λ p. omega arith)
  process_all_lem sh ((a, now) ∷ rest) =
      let sh' = (process_alert repo sh a now).0 in
      let events = (process_all repo sh' rest).1 in
      let (ih_bus, ih_store) = process_all_lem sh' rest in
      elim (process_alert_cases sh a now) [
        | inl (c, f, b, k) ↦ (
          rw c (ih_bus ∙ ap (λ x. publish_all x events) b),
          λ p. ground (arith, ih_store p, k p, c),
        )
        | inr (e, c, f, b, k) ↦ (
          rw c (ih_bus ∙ ap (λ x. publish_all x events) b),
          λ p. ground (arith, ih_store p, k, c),
        )
      ]

  -- So when the bus is not drained meanwhile, the events of the created alerts are appended to it in
  -- order as far as there is room, and the rest are dropped though their alerts are stored.
  pub process_all-drops :
      (sh : Shared F J S O) (batch : List (Alert F J × ℕ))
      → sh.bus.event_chan.closed ≡ false
      → BatchOutcome sh batch
  process_all-drops sh batch c =
      let (bus, stored) = process_all_lem sh batch in
      let events = (process_all repo sh batch).1 in
      (ap (λ b. b.event_chan.buffer) bus ∙ publish_all_lem _ sh.bus events c refl, stored)
