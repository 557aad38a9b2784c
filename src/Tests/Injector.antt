-- ===== src/Tests/Injector.antt =====
-- The injection of a pod, with a configuration that brings a container and a volume mount.
use kidecar.Base.{String, refl, ◌≡◌, true, false, none, some, List, [], ◌∷◌, ◌++◌, map}
use kidecar.Base.Maps.{lookup}
use kidecar.Base.Outcome.{ok, err, msg}
use kidecar.Kube.{Container}
use kidecar.Api
use kidecar.Api.Sidecar
use kidecar.Api.{SidecarConfig, SidecarConfigStatus}
use kidecar.Injector.Client.{Request}
use kidecar.Injector.Match.{first_match, get_sidecar_config_of_pod}
use kidecar.Injector.Match.First.{Chosen, first_match-Chosen}
use kidecar.Injector.Mutate.{prune_container, prune_token}
use kidecar.Injector.Mutate.Prune.{erase_token, prune_token-erase}
use kidecar.Injector.Encode.{convert_plugins}
use kidecar.Injector.Encode.Plugins.{SamePlugins, convert_plugins-SamePlugins}
use kidecar.Injector.Configmap.{ensure_configmap}
use kidecar.Injector.Inject.{Controller, inject_with, inject_pod, update_status_once}
use kidecar.Injector.Inject.Shape.{inject_with-user_containers}
use kidecar.Injector.Inject.Once.{inject_pod-once}
use kidecar.Injector.Inject.Errors.{inject_pod-error}
use kidecar.Injector.Inject.Status.{IsCounted, update_status_once-IsCounted}
use kidecar.Tests.World.{World, client, server, config_server, encoder, controller, own_pod}

abbrev pub zero_status : SidecarConfigStatus
zero_status = record { matched_pods = 4; updated_pods = 0; ready_pods = 0; updated_ready_pods = 0 }

abbrev pub agent : Container
agent = record {
  name = "agent";
  image = "agent:1";
  env = [];
  ports = [];
  volume_mounts = [];
  restart_policy = none;
}

abbrev pub config : SidecarConfig
config = record {
  name = "web-agent";
  namespace = "ops";
  annotations = none;
  spec = record {
    injection = record {
      selector =
          some (record { match_labels = some (("app", "web") ∷ []); match_expressions = [] });
      inject_kidecar = false;
      use_kube_native_sidecar = false;
      namespace = "";
      namespace_selector = none;
      init_containers = [];
      containers = agent ∷ [];
      volumes = record { name = "scratch"; config_map = none } ∷ [];
      volume_mounts = record { name = "scratch"; mount_path = "/scratch" } ∷ [];
      force_inject_service_account = none;
      service_account_name = "agent";
      share_process_namespace = some true;
    };
    kidecar = record {
      plugins = [];
      restart_policy = "Always";
      resources = none;
      sidecar_start_order = "";
    };
  };
  status = zero_status;
}

-- The same configuration, for the pods of another application.
abbrev other : SidecarConfig
other = record config {
  name = "db-agent";
  spec = record (config.spec) {
    injection = record (config.spec.injection) {
      selector = some (record { match_labels = some (("app", "db") ∷ []); match_expressions = [] });
    };
  };
}

abbrev pub world : World
world = record { configmap = none; config = some config }

abbrev request : Request World
request = record { pod = own_pod; server = world }

abbrev injected : Request World
unfolding inject_with
injected = (inject_with controller config request).1

inject_with_runs : inject_with controller config request ≡ (ok tt, injected)
unfolding inject_with
inject_with_runs = refl

inject_with-user_containers_example :
    (injected.pod.containers ≡ (agent ∷ []) ++ map prune_container own_pod.containers)
    × (injected.pod.init_containers ≡ [] ++ own_pod.init_containers)
    × (injected.pod.volumes ≡ config.spec.injection.volumes ++ own_pod.volumes)
inject_with-user_containers_example =
    inject_with-user_containers controller config request injected refl inject_with_runs

inject_pod_runs : inject_pod controller request ≡ (ok tt, injected)
unfolding inject_pod lookup
inject_pod_runs = refl

pod_matches : (get_sidecar_config_of_pod client own_pod world).0 ≡ ok (some config)
unfolding get_sidecar_config_of_pod lookup
pod_matches = refl

inject_pod-once_example : (inject_pod controller injected).1.pod ≡ injected.pod
inject_pod-once_example =
    inject_pod-once controller request injected injected.server config pod_matches inject_pod_runs

-- The configmap cannot be read when the kidecar container is in the pod already.
abbrev broken : Controller World String
broken = record controller {
  client = record client { get_configmap = λ ns name w. (err (msg "timeout"), w) };
}

abbrev with_kidecar : Request World
with_kidecar = record request {
  server = record world {
    config = some (record config {
      spec = record (config.spec) {
        injection = record (config.spec.injection) { inject_kidecar = true };
      };
    });
  };
}

abbrev half_done : Request World
half_done = (inject_pod broken with_kidecar).1

inject_pod_fails : inject_pod broken with_kidecar ≡ (err (msg "timeout"), half_done)
unfolding inject_pod lookup
inject_pod_fails = refl

inject_pod-error_example : half_done.pod.annotations ≡ own_pod.annotations
inject_pod-error_example =
    inject_pod-error broken with_kidecar (msg "timeout") half_done inject_pod_fails

-- The first configuration is passed over.
first_match_runs :
    first_match client own_pod (other ∷ config ∷ []) world ≡ (ok (some config), world)
unfolding first_match lookup
first_match_runs = refl

first_match-Chosen_example : Chosen client own_pod (other ∷ config ∷ []) world (some config) world
first_match-Chosen_example =
    first_match-Chosen client own_pod (other ∷ config ∷ []) world world (some config)
      first_match_runs

status_runs :
    update_status_once controller config world
    ≡ (ok tt, (update_status_once controller config world).1)
unfolding update_status_once
status_runs = refl

update_status_once-IsCounted_example :
    IsCounted controller config_server config (update_status_once controller config world).1
update_status_once-IsCounted_example =
    update_status_once-IsCounted controller config_server config world
      (update_status_once controller config world).1 status_runs

prune_token-erase_example :
    prune_token (record { name = "logs"; mount_path = "/logs" } ∷ [])
    ≡ erase_token (record { name = "logs"; mount_path = "/logs" } ∷ [])
prune_token-erase_example = prune_token-erase (record { name = "logs"; mount_path = "/logs" } ∷ [])

abbrev plugins : List Api.PluginConfig
plugins =
    record { name = "hot_update"; config = some "{}"; binary = none; boot_order = 1 }
    ∷ record { name = "http_probe"; config = none; binary = none; boot_order = 2 }
    ∷ []

abbrev converted : List (Sidecar.PluginConfig String)
converted =
    record { name = "hot_update"; config = some "{}"; binary = none; boot_order = 1 }
    ∷ record { name = "http_probe"; config = none; binary = none; boot_order = 2 }
    ∷ []

convert_plugins_runs : convert_plugins encoder plugins ≡ ok converted
unfolding convert_plugins
convert_plugins_runs = refl

convert_plugins-SamePlugins_example : SamePlugins encoder plugins converted
convert_plugins-SamePlugins_example =
    convert_plugins-SamePlugins encoder plugins converted convert_plugins_runs

abbrev made : World
made = (ensure_configmap client controller.hash (ok "plugins: []") "shop" world).1
