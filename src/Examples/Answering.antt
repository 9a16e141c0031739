-- ===== src/Examples/Answering.antt =====
-- The routes, the connection and the email dispatcher at concrete inputs.
use monitoring_tool.Prelude.{
  ℕ, zero, suc, refl, true, String, [], ◌∷◌, Option, none, some, pos, str_eq, if◌then◌else◌,
}
use monitoring_tool.Results.{Result, ok, err}
use monitoring_tool.Repository.InMemory.{in_memory, in_memory-RepoLaws}
use monitoring_tool.Storage.{Backend}
use monitoring_tool.Notifier.{EmailConfig, subscribes}
use monitoring_tool.Notifier.Retry.{Dispatch, on_alert_subscribed}
use monitoring_tool.Api.Answers.{RouteAnswers, serve_lem}
use monitoring_tool.Examples.Toy.{toy, sample}

abbrev open_database : String → Result ℕ
open_database dsn = if str_eq dsn "" then err "no host" else ok 1

abbrev database : Backend ℕ
database = record { opens = open_database; sql_db = λ h. none; pings = λ h settings. none }

serve_lem_example :
    RouteAnswers in_memory in_memory-RepoLaws database
      (sample "low" 1 ∷ sample "high" 2 ∷ [])
      (some 1)
      9
      (some "1")
serve_lem_example =
    serve_lem in_memory in_memory-RepoLaws database (sample "low" 1 ∷ sample "high" 2 ∷ []) (some 1)
      9 (some "1")

abbrev email : EmailConfig
email = record {
  enabled = true;
  smtp_host = "mail";
  smtp_port = pos 25;
  username = "user";
  password = "secret";
  from = "me";
  to = "you" ∷ [];
}

abbrev first_fails : ℕ → Option String
first_fails zero = some "timeout"
first_fails (suc n) = none

on_alert_subscribed_example : Dispatch toy email (λ t. "now") first_fails (sample "high" 1)
unfolding subscribes
on_alert_subscribed_example =
    on_alert_subscribed toy email (λ t. "now") first_fails (sample "high" 1) refl
