-- ===== src/Store/Metrics/Unset.antt =====
-- The map of gauges is never made, so no gauge can be written.
use kidecar.Base.{String, ◌≡◌, ◌≢◌, none, some, arith}
use kidecar.Base.Outcome.{ok}
use kidecar.Process.{Process}
use kidecar.Store.Config.{AnyConfig, http_metric_config, in_kube_config}
use kidecar.Store.Metrics.{Prometheus, PromMetric, prom_store, prom_setup}

-- From a nil map, promMetric.Store does not succeed, and the map stays nil.
pub prom_store-unset :
    {W F : Type 0} (prom : Prometheus W F) (text : String) (config : AnyConfig) (p : PromMetric)
    (w : W)
    → p.metrics ≡ none
    → ((prom_store prom text config (p, w)).0 ≢ ok tt)
      × ((prom_store prom text config (p, w)).1.0.metrics ≡ none)
unfolding prom_store
prom_store-unset prom text (http_metric_config none) p w h = ground (arith, h)
prom_store-unset prom text (http_metric_config (some c)) p w h = ground (arith, h)
prom_store-unset prom text (in_kube_config c) p w h = ground (arith, h)

pub prom_setup-unset :
    {W : Type 0} (p q : PromMetric) (s s' : Process W)
    → p.metrics ≡ none
    → prom_setup p s ≡ (ok q, s')
    → q.metrics ≡ none
unfolding prom_setup
prom_setup-unset p q s s' h e = ground (arith, h)
