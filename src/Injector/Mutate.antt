-- ===== src/Injector/Mutate.antt =====
-- The second half of pkg/injector/pod.go: the changes to the pod.
pub mod Prune
pub mod Mounts
pub mod Notes
use kidecar.Base.{
  ℕ, suc, String, Bool, true, Option, none, some, List, [], ◌∷◌, ◌++◌, map, str_eq, eqb,
  if◌then◌else◌, is_empty, length, take, drop, ◌||◌, ◌&&◌, not,
}
use kidecar.Base.Maps.{GoMap, entries, insert, put_all}
use kidecar.Kube.{Container, VolumeMount, Volume, Pod}
use kidecar.Api.{SidecarConfig}

abbrev pub inject_annotation_key : String
inject_annotation_key = "sidecarconfig.kidecar.io/inject"

abbrev pub kidecar_configmap_name : String
kidecar_configmap_name = "kidecar-config"

abbrev pub default_kidecar_image : String
default_kidecar_image = "113745426946.dkr.ecr.us-east-1.amazonaws.com/xuetaotest/kidecar:v5"

abbrev pub token_mount_path : String
token_mount_path = "/var/run/secrets/kubernetes.io/serviceaccount"

-- if name != "" && (account == "default" || account == "") { account = name }; if force { ... }
unfoldable pub choose_account : String → Bool → String → String
choose_account name force account =
    if force
    then name
    else if not (str_eq name "") && (str_eq account "default" || str_eq account "")
    then name
    else account

-- The loop over the volume mounts of a container, at index j: the first mount of the token is cut
-- out of the slice, and the loop ends.
prune_from : List VolumeMount → ℕ → List VolumeMount → List VolumeMount
prune_from all j [] = all
prune_from all j (mount ∷ rest) =
    let later = prune_from all (suc j) rest in
    if str_eq mount.mount_path token_mount_path
    then (if eqb (length all) 1 then [] else take j all ++ drop (suc j) all)
    else later

unfoldable pub prune_token : List VolumeMount → List VolumeMount
unfolding prune_from
prune_token mounts = prune_from mounts 0 mounts

unfoldable pub prune_container : Container → Container
unfolding prune_token
prune_container c = record c { volume_mounts = prune_token c.volume_mounts }

-- What injectServiceAccount does to the pod, once the account is known to exist.
unfoldable pub set_service_account : String → Bool → Pod → Pod
unfolding choose_account prune_container
set_service_account name force pod = record pod {
  service_account_name = choose_account name force pod.service_account_name;
  containers = map prune_container pod.containers;
}

unfoldable pub add_containers : List Container → Pod → Pod
add_containers containers pod =
    if is_empty containers then pod else record pod { containers = containers ++ pod.containers }

unfoldable pub add_init_containers : List Container → Pod → Pod
add_init_containers containers pod =
    if is_empty containers
    then pod
    else record pod { init_containers = containers ++ pod.init_containers }

unfoldable pub add_volumes : List Volume → Pod → Pod
add_volumes volumes pod =
    if is_empty volumes then pod else record pod { volumes = volumes ++ pod.volumes }

unfoldable pub share_process_namespace : Bool → Pod → Pod
share_process_namespace share pod =
    if share then record pod { share_process_namespace = some true } else pod

-- `for _, container := range containers { container.VolumeMounts = ... }`: the assignment is to the
-- loop's copy of the element, and the slice keeps its elements.
assign_to_copies : List VolumeMount → List Container → Pod → Pod
assign_to_copies mounts [] pod = pod
assign_to_copies mounts (container ∷ rest) pod =
    let copy = record container { volume_mounts = mounts ++ container.volume_mounts } in
    assign_to_copies mounts rest pod

unfoldable pub add_volume_mounts : List VolumeMount → Pod → Pod
unfolding assign_to_copies
add_volume_mounts mounts pod =
    let pod' = assign_to_copies mounts pod.containers pod in
    assign_to_copies mounts pod'.init_containers pod'

unfoldable pub add_annotations : GoMap String → Pod → Pod
unfolding insert put_all
add_annotations annotations pod = record pod {
  annotations = some (
      insert inject_annotation_key "true"
        (put_all (entries annotations) (entries pod.annotations)));
}

-- getKidecarImage, at the value of KIDECAR_IMAGE
unfoldable pub get_kidecar_image : String → String
get_kidecar_image image = if str_eq image "" then default_kidecar_image else image

unfoldable pub kidecar_container : String → Option String → Container
unfolding get_kidecar_image
kidecar_container image restart_policy = record {
  name = "kidecar";
  image = get_kidecar_image image;
  env =
      record { name = "POD_NAME"; value = ""; field_path = some "metadata.name" }
      ∷ record { name = "POD_NAMESPACE"; value = ""; field_path = some "metadata.namespace" }
      ∷ record { name = "PROCESS_NAME"; value = "nginx: master process nginx"; field_path = none }
      ∷ [];
  ports = record { name = "hot-update-port"; container_port = 5000 } ∷ [];
  volume_mounts = record { name = kidecar_configmap_name; mount_path = "/opt/kidecar" } ∷ [];
  restart_policy = restart_policy;
}

unfoldable pub kidecar_volume : Volume
kidecar_volume = record { name = kidecar_configmap_name; config_map = some kidecar_configmap_name }

place_container : String → Bool → Pod → Pod
unfolding kidecar_container
place_container image native pod =
    if native
    then record pod {
      init_containers = pod.init_containers ++ (kidecar_container image (some "Always") ∷ []);
    }
    else record pod { containers = pod.containers ++ (kidecar_container image none ∷ []) }

unfoldable pub add_kidecar_container : String → SidecarConfig → Pod → Pod
unfolding place_container kidecar_volume
add_kidecar_container image config pod =
    let pod' = place_container image config.spec.injection.use_kube_native_sidecar pod in
    record pod' { volumes = pod'.volumes ++ (kidecar_volume ∷ []) }
