-- ===== src/Controller.antt =====
-- cmd/main.go, the program of the webhook and the collector, with what it sets up: the controller of
-- internal/controller, the webhooks of api/v1alpha1/sidecarconfig_webhook.go and pkg/webhook, and
-- StartPodInfoCollector of pkg/collector.
pub mod Options
pub mod Order
use kidecar.Base.{
  ℕ, String, Bool, true, false, Option, none, some, List, [], ◌∷◌, str_eq, if◌then◌else◌,
}
use kidecar.Base.Outcome.{Outcome, ok, err, panic, explicit, error_text}
use kidecar.Base.Exec.{Exec, pure, wrapping, ◌>>=◌, ◌>>◌}
use kidecar.Process.{Environ}
use kidecar.Info.{getenv}
use kidecar.Api.{SidecarConfig}

-- The flags, once they are parsed.
pub record Flags : Type 0 where
  pub metrics_addr : String
  pub probe_addr : String
  pub enable_leader_election : Bool
  pub secure_metrics : Bool
  pub enable_http2 : Bool

abbrev pub default_flags : Flags
default_flags = record {
  metrics_addr = "0";
  probe_addr = ":8081";
  enable_leader_election = false;
  secure_metrics = true;
  enable_http2 = false;
}

-- tls.Config, with the field that main sets
pub record TlsConfig : Type 0 where
  pub next_protos : List String

-- filters.WithAuthenticationAndAuthorization
pub data FilterProvider : Type 0 where
  with_authentication_and_authorization : FilterProvider

-- metricsserver.Options
pub record MetricsOptions : Type 0 where
  pub bind_address : String
  pub secure_serving : Bool
  pub tls_opts : List (TlsConfig → TlsConfig)
  pub filter_provider : Option FilterProvider

-- ctrl.Options, with the options of the webhook server
pub record ManagerOptions : Type 0 where
  pub metrics : MetricsOptions
  pub webhook_tls_opts : List (TlsConfig → TlsConfig)
  pub health_probe_bind_address : String
  pub leader_election : Bool
  pub leader_election_id : String

-- The types whose webhooks are registered.
pub data Served : Type 0 where
  sidecar_configs pods : Served

-- controller-runtime, over the states of the manager and of what runs in it
pub record Runtime (S : Type 0) : Type 0 where
  -- AddToScheme of the package of a path
  pub add_to_scheme : String → Exec S (Unit {0})
  -- GetConfigOrDie: a failure is the end of the program
  pub get_config : Exec S (Unit {0})
  pub new_manager : ManagerOptions → Exec S (Unit {0})
  -- ctrl.NewControllerManagedBy(mgr).For(...).Complete(r), for a kind
  pub complete_controller : String → Exec S (Unit {0})
  -- ctrl.NewWebhookManagedBy(mgr).For(...).Complete()
  pub complete_webhook : Served → Exec S (Unit {0})
  pub add_healthz_check : String → Exec S (Unit {0})
  pub add_readyz_check : String → Exec S (Unit {0})
  -- mgr.Add, of the collector
  pub add_collector : Exec S (Unit {0})
  pub start : Exec S (Unit {0})

disable_http2 : TlsConfig → TlsConfig
disable_http2 c = record c { next_protos = "http/1.1" ∷ [] }

tls_options : Bool → List (TlsConfig → TlsConfig)
unfolding disable_http2
tls_options enable_http2 = if enable_http2 then [] else disable_http2 ∷ []

metrics_options : Flags → MetricsOptions
unfolding tls_options
metrics_options flags = record {
  bind_address = flags.metrics_addr;
  secure_serving = flags.secure_metrics;
  tls_opts = tls_options flags.enable_http2;
  filter_provider =
      if flags.secure_metrics then some with_authentication_and_authorization else none;
}

pub manager_options : Flags → ManagerOptions
unfolding metrics_options tls_options
manager_options flags = record {
  metrics = metrics_options flags;
  webhook_tls_opts = tls_options flags.enable_http2;
  health_probe_bind_address = flags.probe_addr;
  leader_election = flags.enable_leader_election;
  leader_election_id = "4023f0b0.vke.volcengine.com";
}

-- Reconcile, and the webhook of SidecarConfig: scaffolding that accepts everything.
reconcile : {S : Type 0} → Exec S (Unit {0})
reconcile = pure tt

default : SidecarConfig → SidecarConfig
default c = c

validate_create : SidecarConfig → Outcome (List String)
validate_create c = ok []

validate_update : SidecarConfig → SidecarConfig → Outcome (List String)
validate_update old c = ok []

validate_delete : SidecarConfig → Outcome (List String)
validate_delete c = ok []

module _ {S : Type 0} (runtime : Runtime S) where
  -- utilruntime.Must
  must : Outcome (Unit {0}) × S → Outcome (Unit {0}) × S
  must (ok u, s) = (ok u, s)
  must (err e, s) = (panic (explicit (error_text e)), s)
  must (panic p, s) = (panic p, s)

  -- The function `init`.
  init : Exec S (Unit {0})
  unfolding must
  init = do
    (λ s. must (runtime.add_to_scheme "k8s.io/client-go/kubernetes/scheme" s))
    (λ s. must (runtime.add_to_scheme "github.com/magicsong/kidecar/api/v1alpha1" s))

  -- SidecarConfigReconciler.SetupWithManager
  setup_controller : Exec S (Unit {0})
  setup_controller = runtime.complete_controller "SidecarConfig"

  -- SidecarConfig.SetupWebhookWithManager
  setup_config_webhook : Exec S (Unit {0})
  setup_config_webhook = runtime.complete_webhook sidecar_configs

  -- PodInjector.SetupWebhookWithManager
  setup_pod_webhook : Exec S (Unit {0})
  setup_pod_webhook = runtime.complete_webhook pods

  start_pod_info_collector : Exec S (Unit {0})
  start_pod_info_collector = runtime.add_collector

  -- What comes behind the webhooks.
  run_manager : Exec S (Unit {0})
  unfolding start_pod_info_collector
  run_manager = do
    wrapping "unable to set up health check" (runtime.add_healthz_check "healthz")
    wrapping "unable to set up ready check" (runtime.add_readyz_check "readyz")
    wrapping "unable to start pod info collector" start_pod_info_collector
    wrapping "problem running manager" runtime.start

  with_webhooks : Bool → Exec S (Unit {0})
  unfolding setup_config_webhook setup_pod_webhook run_manager
  with_webhooks false = run_manager
  with_webhooks true = do
    wrapping "unable to create webhook" setup_config_webhook
    wrapping "unable to create webhook" setup_pod_webhook
    run_manager

  -- main, behind flag.Parse; an error is logged with its text before os.Exit(1).
  set_up : Flags → Environ → Exec S (Unit {0})
  unfolding manager_options setup_controller with_webhooks getenv
  set_up flags env = do
    runtime.get_config
    wrapping "unable to start manager" (runtime.new_manager (manager_options flags))
    wrapping "unable to create controller" setup_controller
    with_webhooks (if str_eq (getenv env "ENABLE_WEBHOOKS") "false" then false else true)

  exit_code : Outcome (Unit {0}) × S → Outcome ℕ × S
  exit_code (ok u, s) = (ok 0, s)
  exit_code (err e, s) = (ok 1, s)
  exit_code (panic p, s) = (panic p, s)

  pub main : Flags → Environ → Exec S ℕ
  unfolding set_up exit_code
  main flags env s = exit_code (set_up flags env s)
