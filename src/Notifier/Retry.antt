-- ===== src/Notifier/Retry.antt =====
-- What the dispatcher sends, and what it reports.
use monitoring_tool.Prelude.{
  ℕ, ◌≡◌, ◌⊎◌, ◌≢◌, Bool, true, false, String, ◌<>◌, [], ◌∷◌, Option, none, some, arith,
}
use monitoring_tool.Platform.{Platform}
use monitoring_tool.Models.{Alert}
use monitoring_tool.Notifier.{
  EmailConfig, Effect, send_mail, sleep_second, mail, address, attempts, on_alert, subscribes,
}

abbrev pub is_send : Effect → Bool
is_send (send_mail addr to message) = true
is_send sleep_second = false

-- What is sent and returned, by the answers of the first two attempts.
abbrev pub Dispatch :
    (p : Platform)
    → EmailConfig
    → (ℕ → String)
    → (ℕ → Option String)
    → Alert p.Float p.Json
    → Type 0
Dispatch p cfg rfc3339 answer a =
    let (effects, result) = on_alert p cfg rfc3339 answer a in
    let send = send_mail (address cfg) cfg.to (mail p rfc3339 a) in
    ((answer 0 ≡ none) × (effects ≡ send ∷ []) × (result ≡ none))
    ⊎ ((answer 0 ≢ none)
        × (answer 1 ≡ none)
        × (effects ≡ send ∷ sleep_second ∷ send ∷ [])
        × (result ≡ none))
    ⊎ ((e : String) × (answer 0 ≢ none)
        × (answer 1 ≡ some e)
        × (effects ≡ send ∷ sleep_second ∷ send ∷ sleep_second ∷ [])
        × (result ≡ some ("email dispatch failed after retries: " <> e)))

-- A dispatcher that `init.go` subscribes tries to send each alert once, and once more exactly if that
-- fails, always the same mail to the same address; it waits a second after each failure, after the
-- last one too; and it returns an error, the second one, exactly when both attempts fail.
pub on_alert_subscribed :
    (p : Platform) (cfg : EmailConfig) (rfc3339 : ℕ → String) (answer : ℕ → Option String)
    (a : Alert p.Float p.Json)
    → subscribes cfg ≡ true
    → Dispatch p cfg rfc3339 answer a
unfolding on_alert attempts subscribes
on_alert_subscribed p cfg rfc3339 answer a s = ground arith
