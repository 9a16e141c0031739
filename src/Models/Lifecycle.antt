-- ===== src/Models/Lifecycle.antt =====
-- An alert from `NewAlert` through any number of calls of `Resolve`.
use monitoring_tool.Prelude.{
  ℕ, ◌≤◌, ◌≡◌, refl, ◌⊎◌, inl, inr, true, false, String, List, [], ◌∷◌, none, some, arith,
}
use monitoring_tool.Platform.{Platform, Labels, JsonRoundTrips}
use monitoring_tool.Models.{Alert, Stamp, new_alert, get_labels_map, resolve, is_firing}

-- The clock does not go back.
abbrev pub Ascending : ℕ → List ℕ → Type 0
Ascending t [] = Unit {0}
Ascending t (now ∷ later) = (t ≤ now) × Ascending now later

module _ {F J : Type 0} where
  -- The status agrees with the resolution time, and the update is never before the trigger.
  pub record IsConsistent (a : Alert F J) : Type 0 where
    pub open_has_no_end : is_firing a ≡ true → a.resolved_at ≡ none
    pub end_is_last : is_firing a ≡ false → a.resolved_at ≡ some a.updated_at
    pub created_first : (a.triggered_at ≤ a.updated_at) × (a.created_at ≡ a.triggered_at)

  -- `Resolve` at each of these times.
  unfoldable pub resolves : List ℕ → Alert F J → Alert F J
  resolves [] a = a
  resolves (now ∷ later) a = resolves later (resolve now a)

  resolve-IsConsistent :
      (a : Alert F J) (now : ℕ) → IsConsistent a → a.updated_at ≤ now → IsConsistent (resolve now a)
  unfolding resolve is_firing
  resolve-IsConsistent a now c h = ground arith

  resolves-IsConsistent :
      (a : Alert F J) (times : List ℕ)
      → IsConsistent a
      → Ascending a.updated_at times
      → IsConsistent (resolves times a)
  unfolding resolves resolve
  resolves-IsConsistent a [] c h = c
  resolves-IsConsistent a (now ∷ later) c h =
      resolves-IsConsistent (resolve now a) later (resolve-IsConsistent a now c h.0) h.1

  resolves_keep :
      (a : Alert F J) (times : List ℕ)
      → (is_firing a ≡ false) ⊎ ((now : ℕ) × (later : List ℕ) × (times ≡ now ∷ later))
      → (is_firing (resolves times a) ≡ false)
        × ((resolves times a).labels ≡ a.labels)
        × ((resolves times a).id ≡ a.id)
  unfolding resolves resolve is_firing
  resolves_keep a [] h = ground arith
  resolves_keep a (now ∷ later) h = resolves_keep (resolve now a) later (inl refl)

module _ (p : Platform) (round_trips : JsonRoundTrips p) where
  -- A new alert, and the same alert resolved at these times.
  abbrev pub Life : String → String → String → p.Float → Labels → Stamp → ℕ → List ℕ → Type 0
  Life severity message source value labels stamp now later =
      let a = new_alert p severity message source value labels stamp in
      let b = resolves (now ∷ later) a in
      (is_firing a ≡ true)
      × (get_labels_map p a ≡ labels)
      × (is_firing b ≡ false)
      × (b.resolved_at ≡ some b.updated_at)
      × (get_labels_map p b ≡ labels)
      × (b.id ≡ stamp.id)

  -- A new alert fires, shows the labels it was made with if they could be encoded, and, resolved at
  -- least once at times that do not go back, is no longer firing, ends at its last update, and keeps
  -- its identity and its labels.
  pub new_alert-resolves :
      (severity message source : String) (value : p.Float) (labels : Labels) (stamp : Stamp)
      (j : p.Json) (now : ℕ) (later : List ℕ)
      → p.marshal labels ≡ some j
      → stamp.now ≤ now
      → Ascending now later
      → Life severity message source value labels stamp now later
  unfolding new_alert is_firing get_labels_map
  new_alert-resolves severity message source value labels stamp j now later m h asc =
      (new_fires, shows, kept.0, consistent.end_is_last kept.0, shows_after, kept_id)
    where
      a : Alert p.Float p.Json
      a = new_alert p severity message source value labels stamp

      new_fires : is_firing a ≡ true
      new_fires = refl

      shows : get_labels_map p a ≡ labels
      shows = ground (arith, m, round_trips labels j m)

      kept :
          (is_firing (resolves (now ∷ later) a) ≡ false)
          × ((resolves (now ∷ later) a).labels ≡ a.labels)
          × ((resolves (now ∷ later) a).id ≡ a.id)
      kept = resolves_keep a (now ∷ later) (inr (now, later, refl))

      consistent : IsConsistent (resolves (now ∷ later) a)
      consistent = resolves-IsConsistent a (now ∷ later) (ground arith) (h, asc)

      shows_after : get_labels_map p (resolves (now ∷ later) a) ≡ labels
      shows_after = rw kept.1 shows

      kept_id : (resolves (now ∷ later) a).id ≡ stamp.id
      kept_id = kept.2
