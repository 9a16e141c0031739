-- ===== src/Notifier.antt =====
-- internal/notifier/email.go: the email of an alert, and its dispatch with one retry.
pub mod Retry
use monitoring_tool.Prelude.{
  ℕ, zero, suc, ◌+◌, Bool, true, false, ◌||◌, ◌&&◌, not, String, ◌<>◌, str_eq, List, [], ◌∷◌, ◌++◌,
  Option, none, some, if◌then◌else◌, ℤ,
}
use monitoring_tool.Platform.{Platform}
use monitoring_tool.Models.{Alert}
use monitoring_tool.Text.{show_ℤ}
use monitoring_tool.Collector.Objects.{concat}

pub record EmailConfig : Type 0 where
  pub enabled : Bool
  pub smtp_host : String
  pub smtp_port : ℤ
  pub username : String
  pub password : String
  pub from : String
  pub to : List String

-- What the dispatcher does to the outside, in order.
pub data Effect : Type 0 where
  send_mail : String → List String → String → Effect  -- addr, to, message
  sleep_second : Effect

module _ (p : Platform) where
  -- The subject line, and the body with the alert's creation time in RFC 3339.
  abbrev pub subject : Alert p.Float p.Json → String
  subject a = concat ("Alert: " ∷ a.severity ∷ " - " ∷ a.source ∷ [])

  abbrev pub body : (ℕ → String) → Alert p.Float p.Json → String
  body rfc3339 a = concat (
      "\nMonitoring Alert\n\nSeverity: "
      ∷ a.severity
      ∷ "\nSource: "
      ∷ a.source
      ∷ "\nMessage: "
      ∷ a.message
      ∷ "\nValue: "
      ∷ p.format_2 a.value
      ∷ "\nTimestamp: "
      ∷ rfc3339 a.created_at
      ∷ "\n\nLabels:\n"
      ∷ p.show_json a.labels
      ∷ "\n\n--\nMonitoring Engine\n"
      ∷ [])

  abbrev pub mail : (ℕ → String) → Alert p.Float p.Json → String
  mail rfc3339 a = concat ("Subject: " ∷ subject a ∷ "\r\n\r\n" ∷ body rfc3339 a ∷ [])

-- `fmt.Sprintf("%s:%d", …)`
abbrev pub address : EmailConfig → String
address cfg = concat (cfg.smtp_host ∷ ":" ∷ show_ℤ cfg.smtp_port ∷ [])

-- The loop over the attempts that are left: `answer n` is the error of the n-th call of
-- `smtp.SendMail`, if it gives one, and `failure` that of the last.
unfoldable pub attempts :
    (ℕ → Option String) → Effect → ℕ → ℕ → String → List Effect × Option String
attempts answer send zero attempt failure =
    ([], some ("email dispatch failed after retries: " <> failure))
attempts answer send (suc left) attempt failure = elim (answer attempt) [
  | none ↦ (send ∷ [], none)
  | some e ↦
      let (effects, result) = attempts answer send left (suc attempt) e in
      (send ∷ sleep_second ∷ effects, result)
]

module _ (p : Platform) where
  -- `OnAlert`: what is done, and the error that is returned.
  unfoldable pub on_alert :
      EmailConfig
      → (ℕ → String)
      → (ℕ → Option String)
      → Alert p.Float p.Json
      → List Effect × Option String
  on_alert cfg rfc3339 answer a =
      if str_eq cfg.smtp_host "" || str_eq cfg.username ""
      then ([], none)
      else attempts answer (send_mail (address cfg) cfg.to (mail p rfc3339 a)) 2 0 ""

-- `initEmailDispatcher` of cmd/monitoring-tool/init.go: whether the dispatcher is subscribed.
unfoldable pub subscribes : EmailConfig → Bool
subscribes cfg =
    if cfg.enabled then not (str_eq cfg.smtp_host "") && not (str_eq cfg.username "") else false
