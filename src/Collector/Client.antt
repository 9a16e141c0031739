-- ===== src/Collector/Client.antt =====
-- internal/collector/k8s_client.go, over what client-go answers.
use monitoring_tool.Prelude.{
  ◌≡◌, refl, ap, arith, Bool, true, false, String, ◌<>◌, str_eq, if◌then◌else◌,
}
use monitoring_tool.Results.{Result, ok, err, panics, ◌>>=◌}

-- What the packages rest, clientcmd, kubernetes and metrics and the environment give: `C` is a REST
-- configuration, `K` and `M` are the two client sets.
pub record ClientGo (C K M : Type 0) : Type 0 where
  pub in_cluster_config : Result C
  pub kubeconfig : String  -- os.Getenv("KUBECONFIG")
  pub home_config : Result String  -- .kube/config under what os.UserHomeDir gives
  pub build_config_from_flags : String → Result C
  pub new_for_config : C → Result K
  pub new_metrics_for_config : C → Result M

-- stopCh of the client, and whether it was closed twice: that panics.
pub record StopCh : Type 0 where
  pub closed : Bool
  pub panicked : Bool

abbrev pub make_stop : StopCh
make_stop = record { closed = false; panicked = false }

-- `close(kc.stopCh)`
abbrev pub close_stop : StopCh → StopCh
close_stop c = if c.closed then record c { panicked = true } else record c { closed = true }

-- `Stop`: the channel is closed unless it is closed already. `Start` is a goroutine that calls it
-- once the context is done.
abbrev pub stop_once : StopCh → StopCh
stop_once c = if c.closed then c else close_stop c

-- No number of calls of `Stop` panics.
pub stop_once-calm : (c : StopCh) → c.panicked ≡ false → (stop_once c).panicked ≡ false
stop_once-calm c h = ground arith

-- The metrics client is made of the two client sets.
pub record K8sClient (K M : Type 0) : Type 0 where
  pub clientset : K
  pub metrics_clientset : M
  pub stop_ch : StopCh

-- `fmt.Errorf("…: %w", err)`
abbrev pub wrap {ℓ} : {A : Type ℓ} → String → Result A → Result A
wrap what (ok a) = ok a
wrap what (err e) = err (what <> e)
wrap what panics = panics

module _ {C K M : Type 0} (g : ClientGo C K M) where
  abbrev config_path : Result String
  config_path =
      if str_eq g.kubeconfig ""
      then wrap "failed to get home directory: " g.home_config
      else ok g.kubeconfig

  abbrev from_file : Result C
  from_file = do
    path ← config_path
    wrap "failed to build config from kubeconfig: " (g.build_config_from_flags path)

  -- `getKubeConfig`: the cluster's own configuration, or else that of the file.
  unfoldable pub get_kube_config : Result C
  get_kube_config = elim g.in_cluster_config [ ok c ↦ ok c | err e ↦ from_file | panics ↦ panics ]

  unfoldable pub new_k8s_client : Result (K8sClient K M)
  unfolding get_kube_config
  new_k8s_client = do
    config ← wrap "failed to get kubeconfig: " get_kube_config
    clientset ← wrap "failed to create kubernetes clientset: " (g.new_for_config config)
    metrics ← wrap "failed to create metrics clientset: " (g.new_metrics_for_config config)
    ok (record { clientset = clientset; metrics_clientset = metrics; stop_ch = make_stop })

module _ {C K M : Type 0} where
  from_file-home :
      (g : ClientGo C K M) (home : Result String)
      → str_eq g.kubeconfig "" ≡ false
      → from_file g ≡ from_file (record g { home_config = home })
  from_file-home g home h = rw h refl

  -- Where KUBECONFIG is set, the home directory plays no part.
  pub get_kube_config-home :
      (g : ClientGo C K M) (home : Result String)
      → str_eq g.kubeconfig "" ≡ false
      → get_kube_config g ≡ get_kube_config (record g { home_config = home })
  unfolding get_kube_config
  get_kube_config-home g home h =
      ap (λ r. elim g.in_cluster_config [ ok c ↦ ok c | err e ↦ r | panics ↦ panics ])
        (from_file-home g home h)

module _ {K M : Type 0} where
  abbrev pub stop : K8sClient K M → K8sClient K M
  stop kc = record kc { stop_ch = stop_once kc.stop_ch }

  -- A second `Stop`, such as that of the goroutine of `Start` after the one of `shutdown`, changes
  -- nothing: the channel is not closed twice.
  pub stop_twice : (kc : K8sClient K M) → stop (stop kc) ≡ stop kc
  stop_twice kc = ground arith
