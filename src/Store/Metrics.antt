-- ===== src/Store/Metrics.antt =====
-- pkg/store/prom_metrics.go: results as Prometheus gauges.
pub mod Unset
use kidecar.Base.{String, Bool, true, false, Option, none, some, List, ◌∷◌, str_eq, if◌then◌else◌}
use kidecar.Base.Maps.{GoMap, entries, lookup, insert}
use kidecar.Base.Outcome.{Outcome, ok, panic, msg, nil_map, nil_pointer, explicit}
use kidecar.Base.Exec.{Exec, pure, fail, lift, wrapping, ◌>>=◌, ◌>>◌}
use kidecar.Process.{Process}
use kidecar.Store.Config.{AnyConfig, in_kube_config, http_metric_config, HttpMetricConfig}

-- The Prometheus library, over the outside state `W`, and strconv.ParseFloat into the floats `F`.
-- A gauge is known by its name.
pub record Prometheus (W F : Type 0) : Type 0 where
  pub must_register : String → Exec W (Unit {0})
  pub set_gauge : String → F → Exec W (Unit {0})
  pub parse_float : String → Outcome F

-- `registry` says whether the pointer is set.
pub record PromMetric : Type 0 where
  pub registry : Bool
  pub metrics : GoMap String

-- http.Handle panics if the pattern is registered already.
contains : List String → String → Bool
contains List.[] p = false
contains (q ∷ ps) p = if str_eq q p then true else contains ps p

unfoldable pub handle : {W : Type 0} → String → Exec (Process W) (Unit {0})
unfolding contains
handle pattern s =
    if contains s.handlers pattern
    then (panic (explicit "http: multiple registrations"), s)
    else (ok tt, record s { handlers = pattern ∷ s.handlers })

-- promMetric.SetupWithManager
unfoldable pub prom_setup : {W : Type 0} → PromMetric → Exec (Process W) PromMetric
unfolding handle
prom_setup p = do handle "/metrics"; pure (record p { registry = true })

module _ {W F : Type 0} (prom : Prometheus W F) where
  on_outside : {A : Type 0} → Exec W A → Exec (PromMetric × W) A
  on_outside {A} m (p, w) = put_back (m w)
    where
      put_back : Outcome A × W → Outcome A × (PromMetric × W)
      put_back (r, w') = (r, (p, w'))

  -- p.metrics[name] = gauge
  write_metric : String → PromMetric → W → Outcome String × (PromMetric × W)
  unfolding insert
  write_metric name p w = elim p.metrics [
    | none ↦ (panic nil_map, (p, w))
    | some m ↦ (ok name, (record p { metrics = some (insert name name m) }, w))
  ]

  register : String → Exec (PromMetric × W) (Unit {0})
  unfolding on_outside
  register name (p, w) =
      if p.registry
      then on_outside (prom.must_register name) (p, w)
      else (panic nil_pointer, (p, w))

  create_gauge : String → Exec (PromMetric × W) String
  unfolding register write_metric
  create_gauge name = do register name; (λ (s : PromMetric × W). write_metric name s.0 s.1)

  or_create : Option String → String → Exec (PromMetric × W) String
  unfolding create_gauge
  or_create (some gauge) name = pure gauge
  or_create none name = create_gauge name

  unfoldable pub get_or_create_gauge : Option HttpMetricConfig → Exec (PromMetric × W) String
  unfolding or_create lookup
  get_or_create_gauge none s = (panic nil_pointer, s)
  get_or_create_gauge (some c) (p, w) =
      or_create (lookup c.metric_name (entries p.metrics)) c.metric_name (p, w)

  store_gauge : Option HttpMetricConfig → String → Exec (PromMetric × W) (Unit {0})
  unfolding get_or_create_gauge on_outside
  store_gauge c text = do
    f ← wrapping "bad data of httpMetricConfig, err" (lift (prom.parse_float text))
    gauge ← get_or_create_gauge c
    on_outside (prom.set_gauge gauge f)

  -- promMetric.Store
  unfoldable pub prom_store : String → AnyConfig → Exec (PromMetric × W) (Unit {0})
  unfolding store_gauge
  prom_store text (http_metric_config c) = store_gauge c text
  prom_store text (in_kube_config c) = fail (msg "bad config of httpMetricConfig")
