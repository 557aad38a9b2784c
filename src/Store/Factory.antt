-- ===== src/Store/Factory.antt =====
-- pkg/store/factory.go, and `StoreData` of pkg/store/config.go: the choice of a storage, its set-up
-- at its first use, and the store itself.
pub mod Metrics
use Prim.Native.String.{◌++◌ as str_append}
use kidecar.Base.{String, Bool, true, false, Option, none, some, [], str_eq, if◌then◌else◌}
use kidecar.Base.Maps.{Entries, lookup, insert}
use kidecar.Base.Outcome.{Outcome, msg}
use kidecar.Base.Exec.{Exec, pure, fail, lift, gets, modify, wrapping, ◌>>=◌, ◌>>◌}
use kidecar.Process.{Environ, Process, KubeInterface}
use kidecar.Store.Config.{
  StorageConfig, AnyConfig, in_kube_config, http_metric_config, type_in_kube, type_http_metric,
}
use kidecar.Store.InKube.{in_kube_store}
use kidecar.Store.Metrics.{Prometheus, PromMetric, prom_setup, prom_store}

-- The pointers of `inKube`: whether they are set.
pub record InKube : Type 0 where
  pub dynamic : Bool
  pub interface : Bool

-- The two implementations of `Storage`.
pub data Storage : Type 0 where
  in_kube : InKube → Storage
  prom_metric : PromMetric → Storage

-- defaultStorageFactory. The map holds the only pointer to each storage.
abbrev pub Factory : Type 0
Factory = Entries Storage

unfoldable pub new_storage_factory : Factory
unfolding insert
new_storage_factory =
    insert type_http_metric (prom_metric (record { registry = false; metrics = none }))
      (insert type_in_kube (in_kube (record { dynamic = false; interface = false })) [])

unfoldable pub is_initialized : Storage → Bool
is_initialized (in_kube c) = c.interface
is_initialized (prom_metric p) = p.registry

-- What a plugin's store works on: its factory, its configuration, and the process.
pub record StoreState (W : Type 0) : Type 0 where
  pub factory : Factory
  pub config : StorageConfig
  pub proc : Process W

module _ {W F : Type 0} (kube : KubeInterface W) (prom : Prometheus W F) (env : Environ) where
  on_process : {A : Type 0} → Exec (Process W) A → Exec (StoreState W) A
  on_process {A} m s = put_back (m s.proc)
    where
      put_back : Outcome A × Process W → Outcome A × StoreState W
      put_back (r, p) = (r, record s { proc = p })

  -- Storage.SetupWithManager
  unfoldable pub setup_with_manager : Storage → Exec (Process W) Storage
  unfolding prom_setup
  setup_with_manager (in_kube c) = do
    wrapping "failed to create dynamic client" (lift kube.new_dynamic)
    pure (in_kube (record c { dynamic = true; interface = true }))
  setup_with_manager (prom_metric p) = do q ← prom_setup p; pure (prom_metric q)

  install : String → Storage → Exec (StoreState W) Storage
  unfolding insert
  install type ready = do
    modify (λ s. record s { factory = insert type ready s.factory })
    pure ready

  set_up : String → Storage → Exec (StoreState W) Storage
  unfolding setup_with_manager on_process is_initialized install
  set_up type storage = if is_initialized storage then pure storage else (do
    ready ← wrapping "failed to setup storage" (on_process (setup_with_manager storage))
    install type ready)

  found : String → Option Storage → Exec (StoreState W) Storage
  unfolding set_up
  found type none = fail (msg (str_append "storage type " (str_append type " not found")))
  found type (some storage) = set_up type storage

  unfoldable pub get_storage : String → Exec (StoreState W) Storage
  unfolding found lookup
  get_storage type = do storage ← gets (λ s. lookup type s.factory); found type storage

  put_config : AnyConfig → StorageConfig → StorageConfig
  put_config (in_kube_config c) config = record config { in_kube = c }
  put_config (http_metric_config c) config = record config { http_metric = c }

  after_in_kube :
      StoreState W
      → Outcome (Unit {0}) × (Process W × AnyConfig)
      → Outcome (Unit {0}) × StoreState W
  unfolding put_config
  after_in_kube s (r, (p, c)) = (r, record s { proc = p; config = put_config c s.config })

  after_prom :
      String
      → StoreState W
      → Outcome (Unit {0}) × (PromMetric × W)
      → Outcome (Unit {0}) × StoreState W
  unfolding insert
  after_prom type s (r, (p, w)) = (
    r,
    record s {
      factory = insert type (prom_metric p) s.factory;
      proc = record (s.proc) { api = w };
    },
  )

  -- storage.Store(data, config)
  storage_store : String → Storage → String → AnyConfig → Exec (StoreState W) (Unit {0})
  unfolding in_kube_store prom_store after_in_kube after_prom
  storage_store type (in_kube c) text config s =
      after_in_kube s (in_kube_store kube env text (s.proc, config))
  storage_store type (prom_metric p) text config s =
      after_prom type s (prom_store prom text config (p, s.proc.api))

  by_type : Storage → String → StorageConfig → Exec (StoreState W) (Unit {0})
  unfolding storage_store
  by_type storage text config =
      if str_eq config.type type_in_kube
      then storage_store config.type storage text (in_kube_config config.in_kube)
      else if str_eq config.type type_http_metric
      then storage_store config.type storage text (http_metric_config config.http_metric)
      else fail (msg (str_append "unsupported storage type: " config.type))

  -- StorageConfig.StoreData
  unfoldable pub store_data : String → Exec (StoreState W) (Unit {0})
  unfolding get_storage by_type
  store_data text = do
    config ← gets (λ s. s.config)
    storage ← wrapping "failed to get storage" (get_storage config.type)
    by_type storage text config
