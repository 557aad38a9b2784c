-- ===== src/Tests/Store.antt =====
-- The storages, the identity of the pod and the persisted results.
use kidecar.Base.{String, refl, ◌≡◌, ◌≢◌, false, none, some, [], ◌∷◌}
use kidecar.Base.Maps.{lookup, or_else, find, HasKeysOnce}
use kidecar.Base.Outcome.{ok}
use kidecar.Kube.{ConfigMap}
use kidecar.Process.{Environ, Process}
use kidecar.Info.{get_current_pod_info}
use kidecar.Info.Names.{pod_environ}
use kidecar.Store.Config.{
  StorageConfig, InKubeConfig, ProbeMarkerPolicy, preprocess, get_policy_of_state,
}
use kidecar.Store.Config.Policies.{last_policy, get_policy_of_state-preprocess}
use kidecar.Store.InKube.{rfc6901_encode, patch_data, policy_annotations, policy_labels}
use kidecar.Store.InKube.Escape.{rfc6901_decode, rfc6901_decode-encode}
use kidecar.Store.InKube.Patch.{own_key, patch_data_lem}
use kidecar.Store.Factory.{StoreState, new_storage_factory, store_data}
use kidecar.Store.Factory.Metrics.{stores, http_metric_never_stored}
use kidecar.Store.Persistent.{PersistentConfig, decode, set_persistence_info, get_persistence_info}
use kidecar.Store.Persistent.Put.{held}
use kidecar.Store.Persistent.RoundTrip.{persist_round_trip}
use kidecar.Tests.World.{prom, World, kube, yaml, yaml_laws, configmap_laws}

abbrev pub env : Environ
env = pod_environ "shop" "web-0"

abbrev results_map : ConfigMap
results_map = record {
  name = "sidecar-result";
  namespace = "kube-system";
  annotations = none;
  contents = none;
}

abbrev start : Process World
start = record {
  cache = [];
  handlers = [];
  api = record { configmap = some results_map; config = none };
}

abbrev loaded : PersistentConfig
loaded = record { type = "hot_update"; result = some (("v1", "http://files/v1") ∷ []) }

abbrev saved : Process World
saved = (set_persistence_info kube yaml env (some loaded) start).1

save_runs : set_persistence_info kube yaml env (some loaded) start ≡ (ok tt, saved)
unfolding set_persistence_info lookup
save_runs = refl

no_text : decode yaml (lookup "shop-web-0" []) ≡ ok (some [])
unfolding decode lookup
no_text = refl

own_info : get_current_pod_info env ≡ ok "shop-web-0"
unfolding get_current_pod_info lookup
own_info = refl

loaded_once : HasKeysOnce {V = String} (("v1", "http://files/v1") ∷ [])
unfolding lookup
loaded_once = (refl, tt)

persist_round_trip_example :
    (q : PersistentConfig) × (get_persistence_info kube yaml env
        (some (record loaded { result = none }))
        saved
      ≡ (ok q, saved))
    × ((version : String)
        → find version q.result
          ≡ or_else (find version loaded.result) (held "hot_update" version (some [])))
persist_round_trip_example =
    persist_round_trip kube yaml env loaded start saved start.api results_map "shop-web-0" (some [])
      yaml_laws configmap_laws loaded_once own_info refl no_text save_runs

abbrev ready : ProbeMarkerPolicy
ready = record {
  state = "ready";
  labels = some (("state", "up") ∷ []);
  annotations = some (("note", "ready") ∷ []);
}

abbrev pub marked : InKubeConfig
marked = record {
  target = none;
  json_path = none;
  annotation_key = some "result";
  label_key = none;
  marker_polices = ready ∷ [];
  policy_map = none;
  preprocessd = false;
}

get_policy_of_state-preprocess_example :
    get_policy_of_state (preprocess marked) "ready" ≡ last_policy "ready" (ready ∷ [])
get_policy_of_state-preprocess_example = get_policy_of_state-preprocess marked "ready" (refl, refl)

rfc6901_decode-encode_example : rfc6901_decode (rfc6901_encode "a/b~c") ≡ some "a/b~c"
rfc6901_decode-encode_example = rfc6901_decode-encode "a/b~c"

abbrev prepared : InKubeConfig
prepared = preprocess marked

annotations_once : HasKeysOnce (policy_annotations (get_policy_of_state prepared "ready"))
unfolding policy_annotations get_policy_of_state preprocess lookup
annotations_once = (refl, tt)

labels_once : HasKeysOnce (policy_labels (get_policy_of_state prepared "ready"))
unfolding policy_labels get_policy_of_state preprocess lookup
labels_once = (refl, tt)

patch_data_lem_example :
    (find "note" (patch_data "ready" prepared).annotations
      ≡ or_else
          (lookup "note" (policy_annotations (get_policy_of_state prepared "ready")))
          (own_key prepared.annotation_key "ready" "note"))
    × (find "note" (patch_data "ready" prepared).labels
        ≡ or_else
            (lookup "note" (policy_labels (get_policy_of_state prepared "ready")))
            (own_key prepared.label_key "ready" "note"))
patch_data_lem_example = patch_data_lem "ready" prepared "note" annotations_once labels_once

abbrev gauge : StorageConfig
gauge = record {
  type = "HTTPMetric";
  in_kube = none;
  http_metric = some (record { metric_name = "load" });
}

abbrev fresh : StoreState World
fresh = record { factory = new_storage_factory; config = gauge; proc = start }

http_metric_never_stored_example :
    (store_data kube prom env "1.5"
      (record (stores kube prom env ((gauge, "1") ∷ []) fresh) { config = gauge })).0
    ≢ ok tt
http_metric_never_stored_example =
    http_metric_never_stored kube prom env ((gauge, "1") ∷ []) fresh gauge "1.5" refl refl
