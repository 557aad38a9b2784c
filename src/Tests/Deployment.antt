-- ===== src/Tests/Deployment.antt =====
-- A pod into which kidecar was injected, and the sidecar that starts in it.
use kidecar.Base.{◌≡◌, refl, String, true, false, Option, none, some, List, [], ◌∷◌}
use kidecar.Base.Maps.{lookup, find}
use kidecar.Base.Outcome.{Outcome, ok, err, msg}
use kidecar.Kube.{ConfigMap}
use kidecar.Info.{get_current_pod_namespace_and_name}
use kidecar.Api
use kidecar.Api.Sidecar.{PluginConfig, SidecarConfig}
use kidecar.Injector.Client.{Request}
use kidecar.Injector.Encode.{Encoder, build_config_yaml, convert_kube_config_to_sidecar_config}
use kidecar.Injector.Mutate.{kidecar_container, kidecar_configmap_name}
use kidecar.Injector.Inject.{Controller, inject_with}
use kidecar.Injector.Inject.Kidecar.{HasKidecar}
use kidecar.Assembler.State.{Sidecar, load_config, new_sidecar}
use kidecar.Assembler.Main.{default_config_path}
use kidecar.Deployment.{FileLaws, volumes_by_name}
use kidecar.Deployment.Loads.{restart, files_of, named_pod, load_config-inject_with}
use kidecar.Tests.World.{World, client, own_pod}
use kidecar.Tests.Injector.{config, world}
use kidecar.Tests.Kubelet.{kubelet, kubelet_laws}

-- A YAML library that knows one document.
abbrev empty_config : SidecarConfig String
empty_config = record {
  plugins = [];
  restart_policy = "Always";
  resources = some [];
  sidecar_start_order = "";
}

abbrev marshal_plugins : List (PluginConfig String) → Outcome String
marshal_plugins [] = ok "plugins: []"
marshal_plugins (p ∷ ps) = err (msg "unknown")

abbrev encoder : Encoder String
encoder = record { unmarshal = λ text. ok text; marshal = λ c. marshal_plugins c.plugins }

abbrev unmarshal : String → Outcome (Option (SidecarConfig String))
unmarshal text = ok (some empty_config)

-- The plugins are the same.
abbrev Same : SidecarConfig String → SidecarConfig String → Type 0
Same written loaded = loaded.plugins ≡ written.plugins

same_plugins :
    (ps : List (PluginConfig String)) (text : String) → marshal_plugins ps ≡ ok text → [] ≡ ps
same_plugins [] text h = refl
same_plugins (p ∷ ps) text h = cc

file_laws : FileLaws encoder unmarshal Same
file_laws = record {
  decoded = λ written text h. (empty_config, refl, same_plugins written.plugins text h);
}

abbrev controller : Controller World String
controller = record { client = client; encoder = encoder; hash = λ t. t; image = "" }

abbrev kidecar_config : Api.SidecarConfig
kidecar_config = record config {
  spec = record (config.spec) {
    injection = record (config.spec.injection) { inject_kidecar = true };
  };
}

abbrev request : Request World
request = record { pod = own_pod; server = world }

abbrev injected : Request World
unfolding inject_with
injected = (inject_with controller kidecar_config request).1

injection_runs : inject_with controller kidecar_config request ≡ (ok tt, injected)
unfolding inject_with
injection_runs = refl

abbrev configmap : ConfigMap
configmap = record {
  name = "kidecar-config";
  namespace = "shop";
  annotations = none;
  contents = some (("config.yaml", "plugins: []") ∷ []);
}

abbrev configmaps : String → Option ConfigMap
configmaps name = some configmap

no_clash : lookup kidecar_configmap_name (volumes_by_name config.spec.injection.volumes) ≡ none
unfolding lookup
no_clash = refl

own_clash : lookup kidecar_configmap_name (volumes_by_name own_pod.volumes) ≡ none
unfolding lookup
own_clash = refl

text_found : find "config.yaml" configmap.contents ≡ some "plugins: []"
unfolding lookup
text_found = refl

text_built : build_config_yaml encoder kidecar_config.spec.kidecar ≡ ok "plugins: []"
unfolding build_config_yaml
text_built = refl

abbrev sidecar : Sidecar Unit Unit String Unit
sidecar = new_sidecar tt

load_config-inject_with_example :
    HasKidecar "" false injected.pod
    × ((written : SidecarConfig String) × (loaded : SidecarConfig String)
        × (convert_kube_config_to_sidecar_config encoder kidecar_config.spec.kidecar ≡ ok written)
        × Same written loaded
        × (load_config
              (files_of kubelet unmarshal configmaps
                (named_pod injected.pod "web-0" "shop")
                ""
                false)
              default_config_path
              sidecar
            ≡ (ok tt, record sidecar { config = some loaded })))
    × (get_current_pod_namespace_and_name (
          kubelet.environ
            (named_pod injected.pod "web-0" "shop")
            (kidecar_container "" (restart false)))
        ≡ ok (record { namespace = "shop"; name = "web-0" }))
load_config-inject_with_example =
    load_config-inject_with controller kubelet kubelet_laws unmarshal Same file_laws kidecar_config
      request injected configmaps configmap "plugins: []" "web-0" "shop" sidecar refl injection_runs
      no_clash own_clash refl text_found text_built refl refl
