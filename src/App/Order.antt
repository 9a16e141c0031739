-- ===== src/App/Order.antt =====
-- How far `shutdown` has come, and what each statement of it does to the order of the stops.
use monitoring_tool.Prelude.{ℕ, ◌<◌, ◌≡◌, refl, true, false, some, ltb, arith}
use monitoring_tool.Pool.Invariant.{PoolInv, step-PoolInv}
use monitoring_tool.Pool.System.{Stopper, not_called, closing, done}
use monitoring_tool.Collector.Watcher.{pod_capacity, node_capacity}
use monitoring_tool.Collector.Watcher.Events.{WatchInv, step-WatchInv}
use monitoring_tool.Pool.System
use monitoring_tool.Collector.Watcher.{
  Watching, watch_returned, Dispatching, selecting, submitting, dispatch_returned,
}
use monitoring_tool.Collector.Watcher
use monitoring_tool.Collector.MetricsLoop.{Looping, submitting_check, waiting, loop_returned}
use monitoring_tool.Collector.MetricsLoop
use monitoring_tool.Processor.Bus
use monitoring_tool.App.Invariant.{AppInv, stopper_at}
use mathlib.Core.Path.{subst}
use monitoring_tool.Collector.Client.{StopCh}
use monitoring_tool.App.System.{Job, Main, App, rank}

module _ {P N A O : Type 0} where
  -- The facts of the invariant that speak of `main`, for the parts one by one.
  pub record Order (m : Main) (p : System.System (Job P N)) (pw : Watcher.System P)
      (nw : Watcher.System N) (ml : MetricsLoop.System) (b : Bus.System A O) : Type 0 where
    pub metrics_flag : ml.stop_closed ≡ ltb 2 (rank m)
    pub pods_flag : pw.stop_closed ≡ ltb 4 (rank m)
    pub nodes_flag : nw.stop_closed ≡ ltb 6 (rank m)
    pub bus_flag : b.bus.stop_closed ≡ ltb 11 (rank m)
    pub stopper : p.stopper ≡ stopper_at m
    pub metrics_gone : 3 < rank m → ml.looping ≡ loop_returned
    pub pods_gone : 5 < rank m → pw.dispatching ≡ dispatch_returned
    pub nodes_gone : 7 < rank m → nw.dispatching ≡ dispatch_returned

  -- The facts of the invariant for the position that `main` has.
  pub order-at :
      (s : App P N A O) (m : Main)
      → AppInv s
      → s.main ≡ m
      → Order m s.pool s.pod_watcher s.node_watcher s.metrics_loop s.bus
  order-at s m inv h =
      subst (λ x. Order x s.pool s.pod_watcher s.node_watcher s.metrics_loop s.bus) h
        (record {
          metrics_flag = inv.metrics_flag;
          pods_flag = inv.pods_flag;
          nodes_flag = inv.nodes_flag;
          bus_flag = inv.bus_flag;
          stopper = inv.stopper;
          metrics_gone = inv.metrics_gone;
          pods_gone = inv.pods_gone;
          nodes_gone = inv.nodes_gone;
        })

  -- A statement of `main` may change every part; nobody else moves meanwhile.
  pub main-AppInv :
      (s : App P N A O) (p : System.System (Job P N)) (pw : Watcher.System P)
      (nw : Watcher.System N) (ml : MetricsLoop.System) (b : Bus.System A O) (c : StopCh) (m : Main)
      → AppInv s
      → c.panicked ≡ false
      → Order m p pw nw ml b
      → PoolInv p × (p.panicked ≡ false) × (p.checked ≡ s.pool.checked)
      → WatchInv 500 pw × (pw.panicked ≡ false) × (pw.dispatching ≡ s.pod_watcher.dispatching)
      → WatchInv 300 nw × (nw.panicked ≡ false) × (nw.dispatching ≡ s.node_watcher.dispatching)
      → (ml.panicked ≡ false) × (ml.looping ≡ s.metrics_loop.looping)
      → (b.panicked ≡ false) × (b.bus.event_chan.closed ≡ false)
      → AppInv (record s {
        pool = p;
        pod_watcher = pw;
        node_watcher = nw;
        metrics_loop = ml;
        bus = b;
        client = c;
        main = m;
      })
  main-AppInv s p pw nw ml b c m inv fine o (pi, pc, pk) (wi, wc, wk) (ni, nc, nk) (lc, lk)
        (bc, bo) =
      record {
        pool = pi;
        pods_inv = wi;
        nodes_inv = ni;
        calm_pool = pc;
        calm_pods = wc;
        calm_nodes = nc;
        calm_metrics = lc;
        calm_bus = bc;
        calm_client = fine;
        metrics_flag = o.metrics_flag;
        pods_flag = o.pods_flag;
        nodes_flag = o.nodes_flag;
        bus_flag = o.bus_flag;
        bus_open = bo;
        stopper = o.stopper;
        metrics_gone = o.metrics_gone;
        pods_gone = o.pods_gone;
        nodes_gone = o.nodes_gone;
        pods_busy = rw wk inv.pods_busy;
        nodes_busy = rw nk inv.nodes_busy;
        metrics_busy = rw lk inv.metrics_busy;
        pods_held = rw pk inv.pods_held;
        nodes_held = rw pk inv.nodes_held;
        metrics_held = rw pk inv.metrics_held;
      }

module _ {E : Type 0} where
  pub watcher_stop :
      (cap : ℕ) (s : Watcher.System E) {t : Watcher.System E}
      → WatchInv cap s
      → s.stop_closed ≡ false
      → s.panicked ≡ false
      → Watcher.step s Watcher.stop ≡ some t
      → (t.stop_closed ≡ true)
        × WatchInv cap t
        × (t.panicked ≡ false)
        × (t.dispatching ≡ s.dispatching)
  unfolding Watcher.step
  watcher_stop cap s inv f c e =
      (ground arith, step-WatchInv cap s Watcher.stop inv e, ground arith, ground arith)

  pub watcher_cancel :
      (cap : ℕ) (s : Watcher.System E)
      → WatchInv cap s
      → s.panicked ≡ false
      → WatchInv cap (record s { cancelled = true })
  unfolding Watcher.step
  watcher_cancel cap s inv c = step-WatchInv cap s Watcher.cancel inv (rw c refl)

pub loop_stop :
    (s : MetricsLoop.System) {t : MetricsLoop.System}
    → s.stop_closed ≡ false
    → s.panicked ≡ false
    → MetricsLoop.step s MetricsLoop.stop ≡ some t
    → (t.stop_closed ≡ true) × (t.panicked ≡ false) × (t.looping ≡ s.looping)
unfolding MetricsLoop.step
loop_stop s f c e = ground arith

module _ {A O : Type 0} where
  pub bus_stops :
      (s : Bus.System A O) {t : Bus.System A O}
      → s.bus.stop_closed ≡ false
      → s.panicked ≡ false
      → s.bus.event_chan.closed ≡ false
      → Bus.step s Bus.stop ≡ some t
      → (t.bus.stop_closed ≡ true) × (t.panicked ≡ false) × (t.bus.event_chan.closed ≡ false)
  unfolding Bus.step
  bus_stops s f c o e = ground arith

module _ {T : Type 0} where
  abbrev pub After : System.System T → System.System T → Stopper → Type 0
  After s t st = (t.stopper ≡ st) × PoolInv t × (t.panicked ≡ false) × (t.checked ≡ s.checked)

  pub pool_cancel :
      (s : System.System T)
      → PoolInv s
      → s.panicked ≡ false
      → PoolInv (record s { cancelled = true })
  unfolding System.step
  pool_cancel s inv c = step-PoolInv s System.cancel inv (rw c refl)

  -- The three statements of the pool's `Stop`.
  pub pool_begins :
      (s : System.System T) {t : System.System T}
      → PoolInv s
      → s.panicked ≡ false
      → s.stopper ≡ not_called
      → System.step s System.stop_begin ≡ some t
      → (s.pool.stopped ≡ false) × After s t closing
  unfolding System.step
  pool_begins s inv c st e = (
    inv.fresh st,
    (ground arith, step-PoolInv s System.stop_begin inv e, ground arith, ground arith),
  )

  pub pool_signals :
      (s : System.System T) {t : System.System T}
      → PoolInv s
      → s.panicked ≡ false
      → s.stopper ≡ closing
      → System.step s System.stop_signal ≡ some t
      → After s t System.waiting
  unfolding System.step
  pool_signals s inv c st e =
      (ground arith, step-PoolInv s System.stop_signal inv e, ground arith, ground arith)

  pub pool_finishes :
      (s : System.System T) {t : System.System T}
      → PoolInv s
      → s.panicked ≡ false
      → s.stopper ≡ System.waiting
      → System.step s System.stop_finish ≡ some t
      → After s t done
  unfolding System.step
  pool_finishes s inv c st e =
      (ground arith, step-PoolInv s System.stop_finish inv e, ground arith, ground arith)
