-- ===== src/Startup/Server.antt =====
-- `setupHTTPServer` of cmd/monitoring-tool/main.go, but for its handler.
use monitoring_tool.Prelude.{ℕ, ◌<◌, ◌≡◌, String, ◌<>◌, pos, true, arith, zero, suc, refl}
use monitoring_tool.Text.{show_ℤ}
use monitoring_tool.Config.{ServerConfig, default_timeouts, timeout_or_15}
use monitoring_tool.Collector.MetricsLoop.{seconds, kept}
use monitoring_tool.Collector.Metrics.{int64_pos}

-- The timeouts are in nanoseconds, as int64.
pub record HttpServer : Type 0 where
  pub addr : String
  pub read_timeout : ℕ
  pub write_timeout : ℕ
  pub max_header_bytes : ℕ

unfoldable pub setup_http_server : ServerConfig → HttpServer
setup_http_server cfg = record {
  addr = ":" <> show_ℤ cfg.port;
  read_timeout = seconds cfg.read_timeout;
  write_timeout = seconds cfg.write_timeout;
  max_header_bytes = 1048576;
}

timeout_bounded : (n : ℕ) → n < 9223372036 → int64_pos (seconds (timeout_or_15 (pos n))) ≡ true
timeout_bounded zero h = refl
timeout_bounded (suc n) h = ground (arith, kept (suc n) h)

-- The timeouts of a configuration that `Load` has completed are positive, so requests are bounded,
-- where those configured are not negative and below 9223372036 seconds: 0 stands for 15 seconds there.
pub setup_http_server-timeouts :
    (cfg : ServerConfig) (r w : ℕ)
    → cfg.read_timeout ≡ pos r
    → cfg.write_timeout ≡ pos w
    → r < 9223372036
    → w < 9223372036
    → (int64_pos (setup_http_server (default_timeouts cfg)).read_timeout ≡ true)
      × (int64_pos (setup_http_server (default_timeouts cfg)).write_timeout ≡ true)
unfolding setup_http_server
setup_http_server-timeouts cfg r w hr hw lr lw =
    (rw hr (timeout_bounded r lr), rw hw (timeout_bounded w lw))
