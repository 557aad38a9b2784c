-- ===== src/Tests/Reflect.antt =====
-- A configuration of a store that names the pod by its environment, walked by reflection.
use kidecar.Base.{◌≡◌, refl, false, none, some, [], ◌∷◌}
use kidecar.Base.Outcome.{ok}
use kidecar.Process.{Environ, Process}
use kidecar.Info.{get_current_pod}
use kidecar.Store.Config.{StorageConfig}
use kidecar.Template
use kidecar.Template.{expression_replace_value}
use kidecar.Template.Reflect
use kidecar.Template.Reflect.Values.{struct, pointer}
use kidecar.Template.Reflect.Storage.{Plain, storage_fields}
use kidecar.Template.Reflect.Storage.Walks.{shown, parse_config-storage}
use kidecar.Template.Reflect.Cached.{FieldsResolve, replaced_fields, parse_config-replaced}
use kidecar.Tests.World.{World, kube, own_pod}

abbrev env : Environ
env = ("POD_NAME", "web-0") ∷ ("POD_NAMESPACE", "shop") ∷ []

abbrev config : StorageConfig
config = record {
  type = "InKube";
  in_kube = some (record {
    target = some (record {
      group = "apps";
      version = "v1";
      resource = "statefulsets";
      namespace = "${SELF:POD_NAMESPACE}";
      name = "web";
      pod_owner = false;
    });
    json_path = some "/metadata/labels";
    annotation_key = none;
    label_key = none;
    marker_polices = [];
    policy_map = none;
    preprocessd = false;
  });
  http_metric = some (record { metric_name = "latency" });
}

abbrev process : Process World
process = record { cache = []; handlers = []; api = record { configmap = none; config = none } }

abbrev cached : Process World
cached = record process { cache = ("web-0", own_pod) ∷ [] }

parse_config-storage_example :
    (Reflect.parse_config kube env (pointer (struct (storage_fields config))) process
      ≡ shown
          (λ d. pointer (struct (storage_fields d)))
          (Template.parse_config kube env (process, config)))
    × (Reflect.parse_config kube env (struct (storage_fields config)) process
        ≡ shown (λ d. struct (storage_fields d)) (Template.parse_config kube env (process, config)))
parse_config-storage_example = parse_config-storage kube env config process

read : get_current_pod kube env process ≡ (ok own_pod, cached)
unfolding get_current_pod
read = refl

resolved : FieldsResolve env own_pod (storage_fields config)
unfolding FieldsResolve expression_replace_value
resolved = (
  (λ e t. ("InKube", refl)),
  (
    (λ e. (
      (λ e. (
        (λ e t. ("apps", refl)),
        (
          (λ e t. ("v1", refl)),
          (
            (λ e t. ("statefulsets", refl)),
            ((λ e t. ("shop", refl)), ((λ e t. ("web", refl)), ((λ e. tt), tt))),
          ),
        ),
      )),
      ((λ e. tt), ((λ e. tt), ((λ e. tt), ((λ e. tt), ((λ e. tt), ((λ e. tt), tt)))))),
    )),
    ((λ e. ((λ e t. ("latency", refl)), tt)), tt),
  ),
)

parse_config-replaced_example :
    Reflect.parse_config kube env (pointer (struct (storage_fields config))) process
    ≡ (ok tt, (cached, pointer (struct (replaced_fields env own_pod (storage_fields config)))))
parse_config-replaced_example =
    parse_config-replaced kube env own_pod (storage_fields config) process cached read resolved

abbrev Kept : Plain → Plain → Type 0
Kept x y = x ≡ y
