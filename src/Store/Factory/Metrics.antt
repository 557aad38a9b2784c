-- ===== src/Store/Factory/Metrics.antt =====
-- The storage type HTTPMetric through the factory.
use kidecar.Base.{
  String, ◌≡◌, ◌≢◌, refl, subst, true, Bool-cases, inl, inr, Option, none, some, List, [], ◌∷◌,
  arith, str_eq,
}
use kidecar.Base.Maps.{lookup, insert}
use kidecar.Base.Outcome.{Outcome, ok, err, panic}
use kidecar.Base.Exec.{continue, wrap_end}
use kidecar.Base.Inversion.{continue-ok}
use kidecar.Process.{Environ, Process, KubeInterface}
use kidecar.Store.Config.{
  StorageConfig, AnyConfig, HttpMetricConfig, http_metric_config, in_kube_config, type_http_metric,
  type_in_kube,
}
use kidecar.Store.Metrics.{Prometheus, prom_store, prom_setup}
use kidecar.Store.Metrics.Unset.{prom_store-unset, prom_setup-unset}
use kidecar.Store.Factory.{
  Storage, in_kube, prom_metric, Factory, StoreState, new_storage_factory, store_data, get_storage,
  found, set_up, install, on_process, setup_with_manager, by_type, storage_store, is_initialized,
}

abbrev IsUnset : Storage → Type 0
IsUnset (in_kube c) = Unit
IsUnset (prom_metric p) = p.metrics ≡ none

-- No storage of a factory has a map of gauges.
abbrev pub HasNoGauges : Factory → Type 0
HasNoGauges [] = Unit
HasNoGauges ((type, storage) ∷ rest) = IsUnset storage × HasNoGauges rest

insert-HasNoGauges :
    (type : String) (storage : Storage) (f : Factory)
    → IsUnset storage
    → HasNoGauges f
    → HasNoGauges (insert type storage f)
unfolding insert
insert-HasNoGauges type storage [] h k = (h, tt)
insert-HasNoGauges type storage ((j, t) ∷ f) h k = elim (Bool-cases (str_eq j type)) [
  | inl e ↦ rw e (h, k.1)
  | inr e ↦ rw e (k.0, insert-HasNoGauges type storage f h k.1)
]

lookup-IsUnset :
    (type : String) (f : Factory) (storage : Storage)
    → HasNoGauges f
    → lookup type f ≡ some storage
    → IsUnset storage
unfolding lookup
lookup-IsUnset type [] storage k e = cc
lookup-IsUnset type ((j, t) ∷ f) storage k e = elim (Bool-cases (str_eq j type)) [
  | inl h ↦ let q : t ≡ storage = ground (arith, e, h) in subst IsUnset q k.0
  | inr h ↦ lookup-IsUnset type f storage k.1 (rw h at e)
]

new_storage_factory-HasNoGauges : HasNoGauges new_storage_factory
unfolding new_storage_factory
new_storage_factory-HasNoGauges = ground arith

not_both : (type : String) → str_eq type type_in_kube ≡ true → type ≢ type_http_metric
not_both type a h = let q = rw h at a in cc q

module _ {W F : Type 0} (kube : KubeInterface W) (prom : Prometheus W F) (env : Environ) where
  setup-IsUnset :
      (storage ready : Storage) (s s' : Process W)
      → IsUnset storage
      → setup_with_manager kube prom env storage s ≡ (ok ready, s')
      → IsUnset ready
  unfolding setup_with_manager
  setup-IsUnset (in_kube c) ready s s' h e =
      let r =
        continue-ok (wrap_end "failed to create dynamic client" (kube.new_dynamic, s)) _ ready s'
          e in
      let q : in_kube (record c { dynamic = true; interface = true }) ≡ ready = cc r.3 in
      subst IsUnset q tt
  setup-IsUnset (prom_metric p) ready s s' h e =
      let r = continue-ok (prom_setup p s) _ ready s' e in
      let q : prom_metric r.0 ≡ ready = cc r.3 in
      subst IsUnset q (prom_setup-unset p r.0 s r.1 h r.2)

  -- A call that gives a storage, or nothing, and leaves no map of gauges.
  abbrev IsFine : Outcome Storage × StoreState W → Type 0
  IsFine x = HasNoGauges x.1.factory × ((ready : Storage) → x.0 ≡ ok ready → IsUnset ready)

  install-IsFine :
      (type : String) (x : Outcome Storage × Process W) (s : StoreState W)
      → HasNoGauges s.factory
      → ((ready : Storage) (p : Process W) → x ≡ (ok ready, p) → IsUnset ready)
      → IsFine (
          continue
            (wrap_end "failed to setup storage" (on_process kube prom env (λ _. x) s))
            (install kube prom env type))
  unfolding on_process install
  install-IsFine type (ok ready, p) s k u = (
    insert-HasNoGauges type ready s.factory (u ready p refl) k,
    λ r e. subst IsUnset (cc) (u ready p refl),
  )
  install-IsFine type (err e, p) s k u = (k, λ r e. cc)
  install-IsFine type (panic f, p) s k u = (k, λ r e. cc)

  set_up-IsFine :
      (type : String) (storage : Storage) (s : StoreState W)
      → HasNoGauges s.factory
      → IsUnset storage
      → IsFine (set_up kube prom env type storage s)
  unfolding set_up
  set_up-IsFine type storage s k u = elim (Bool-cases (is_initialized storage)) [
    | inl e ↦ rw e (k, λ r q. subst IsUnset (cc) u)
    | inr e ↦ rw e (
        install-IsFine type (setup_with_manager kube prom env storage s.proc) s k
          (λ r p q. setup-IsUnset storage r s.proc p u q))
  ]

  found-IsFine :
      (type : String) (o : Option Storage) (s : StoreState W)
      → HasNoGauges s.factory
      → lookup type s.factory ≡ o
      → IsFine (found kube prom env type o s)
  unfolding found
  found-IsFine type none s k e = (k, λ r q. cc)
  found-IsFine type (some storage) s k e =
      set_up-IsFine type storage s k (lookup-IsUnset type s.factory storage k e)

  -- The store leaves no map of gauges, and it does not succeed for the type HTTPMetric.
  abbrev StoresNone : StorageConfig → Outcome (Unit {0}) × StoreState W → Type 0
  StoresNone config x = HasNoGauges x.1.factory × (config.type ≡ type_http_metric → x.0 ≢ ok tt)

  store-none :
      (type : String) (storage : Storage) (text : String) (config : AnyConfig) (s : StoreState W)
      → HasNoGauges s.factory
      → IsUnset storage
      → HasNoGauges (storage_store kube prom env type storage text config s).1.factory
  unfolding storage_store
  store-none type (in_kube c) text config s k u = k
  store-none type (prom_metric p) text config s k u =
      insert-HasNoGauges type (prom_metric (prom_store prom text config (p, s.proc.api)).1.0)
        s.factory (prom_store-unset prom text config p s.proc.api u).1 k

  store-fails :
      (type : String) (storage : Storage) (text : String) (c : Option HttpMetricConfig)
      (s : StoreState W)
      → IsUnset storage
      → (storage_store kube prom env type storage text (http_metric_config c) s).0 ≢ ok tt
  unfolding storage_store
  store-fails type (in_kube k) text c s u e = cc
  store-fails type (prom_metric p) text c s u e =
      (prom_store-unset prom text (http_metric_config c) p s.proc.api u).0 e

  by_type-none :
      (storage : Storage) (text : String) (config : StorageConfig) (s : StoreState W)
      → HasNoGauges s.factory
      → IsUnset storage
      → StoresNone config (by_type kube prom env storage text config s)
  unfolding by_type
  by_type-none storage text config s k u = elim (Bool-cases (str_eq config.type type_in_kube)) [
    | inl a ↦ rw a (
      store-none config.type storage text (in_kube_config config.in_kube) s k u,
      λ h. absurd (not_both config.type a h),
    )
    | inr a ↦ elim (Bool-cases (str_eq config.type type_http_metric)) [
      | inl b ↦
          rw (a, b)
            (
              store-none config.type storage text (http_metric_config config.http_metric) s k u,
              λ h. store-fails config.type storage text config.http_metric s u,
            )
      | inr b ↦ rw (a, b) (k, λ h e. cc)
    ]
  ]

  then_store :
      (text : String) (config : StorageConfig) (x : Outcome Storage × StoreState W)
      → IsFine x
      → StoresNone config (
          continue
            (wrap_end "failed to get storage" x)
            (λ storage. by_type kube prom env storage text config))
  then_store text config (ok storage, s) f =
      by_type-none storage text config s f.0 (f.1 storage refl)
  then_store text config (err e, s) f = (f.0, λ h q. cc)
  then_store text config (panic p, s) f = (f.0, λ h q. cc)

  store_data-none :
      (text : String) (s : StoreState W)
      → HasNoGauges s.factory
      → StoresNone s.config (store_data kube prom env text s)
  unfolding store_data get_storage
  store_data-none text s k =
      then_store text s.config
        (found kube prom env s.config.type (lookup s.config.type s.factory) s)
        (found-IsFine s.config.type (lookup s.config.type s.factory) s k refl)

  -- A plugin's stores, one after the other, each with its configuration and its text.
  unfoldable pub stores : List (StorageConfig × String) → StoreState W → StoreState W
  unfolding store_data
  stores [] s = s
  stores ((config, text) ∷ rest) s =
      stores rest (store_data kube prom env text (record s { config = config })).1

  stores-HasNoGauges :
      (calls : List (StorageConfig × String)) (s : StoreState W)
      → HasNoGauges s.factory
      → HasNoGauges (stores calls s).factory
  unfolding stores
  stores-HasNoGauges [] s k = k
  stores-HasNoGauges ((config, text) ∷ rest) s k =
      stores-HasNoGauges rest (store_data kube prom env text (record s { config = config })).1
        (store_data-none text (record s { config = config }) k).0

  -- With a factory that NewStorageFactory made, whatever has been stored through it before, StoreData
  -- never succeeds for a configuration of the type HTTPMetric.
  pub http_metric_never_stored :
      (calls : List (StorageConfig × String)) (s : StoreState W) (config : StorageConfig)
      (text : String)
      → s.factory ≡ new_storage_factory
      → config.type ≡ type_http_metric
      → (store_data kube prom env text (record (stores calls s) { config = config })).0 ≢ ok tt
  http_metric_never_stored calls s config text fresh http =
      (store_data-none text (record (stores calls s) { config = config })
          (stores-HasNoGauges calls s (rw fresh new_storage_factory-HasNoGauges))).1
        http
