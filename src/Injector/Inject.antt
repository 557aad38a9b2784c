-- ===== src/Injector/Inject.antt =====
-- `InjectPod` of pkg/injector/pod.go, and `Default` of pkg/webhook/pod_inject.go that calls it.
pub mod Once
pub mod Shape
pub mod Kidecar
pub mod Errors
pub mod Status
use Prim.Native.String.{◌++◌ as str_append}
use kidecar.Base.{
  ℕ, ◌+◌, ◌%◌, ◌^◌, String, Bool, false, Option, none, some, str_eq, if◌then◌else◌, is_some,
}
use kidecar.Base.Maps.{find}
use kidecar.Base.Outcome.{ok, msg}
use kidecar.Base.Exec.{Exec, pure, fail, gets, modify, wrapping, attempt, ◌>>=◌, ◌>>◌}
use kidecar.Kube.{Pod}
use kidecar.Api.{SidecarConfig, SidecarConfigStatus}
use kidecar.Injector.Client.{Client, Request, on_server}
use kidecar.Injector.Match.{get_sidecar_config_of_pod}
use kidecar.Injector.Mutate.{
  inject_annotation_key, set_service_account, add_containers, add_init_containers, add_volumes,
  add_volume_mounts, share_process_namespace, add_annotations, add_kidecar_container,
}
use kidecar.Injector.Encode.{Encoder, build_config_yaml}
use kidecar.Injector.Configmap.{ensure_configmap}

-- p != nil && *p
is_set : Option Bool → Bool
is_set none = false
is_set (some b) = b

-- What the controller is given: the server's client, the encoders, SHA-256 as a hex text, and the
-- value of KIDECAR_IMAGE.
pub record Controller (W J : Type 0) : Type 0 where
  pub client : Client W
  pub encoder : Encoder J
  pub hash : String → String
  pub image : String

-- An `int32` that counts up by one.
unfoldable pub next_int32 : ℕ → ℕ
next_int32 n = (n + 1) % 2 ^ 32

module _ {W J : Type 0} (ctl : Controller W J) where
  change : (Pod → Pod) → Exec (Request W) (Unit {0})
  change f = modify (λ r. record r { pod = f r.pod })

  check_account : String → Exec (Request W) (Unit {0})
  check_account name r =
      if str_eq name ""
      then (ok tt, r)
      else wrapping (str_append "failed to get service account " name)
          (on_server (ctl.client.get_service_account r.pod.namespace name)) r

  unfoldable pub inject_service_account : String → Bool → Exec (Request W) (Unit {0})
  unfolding change set_service_account check_account
  inject_service_account name force = do check_account name; change (set_service_account name force)

  inject_containers : SidecarConfig → Exec (Request W) (Unit {0})
  unfolding change add_kidecar_container ensure_configmap build_config_yaml add_containers
      add_init_containers
  inject_containers config =
      if config.spec.injection.inject_kidecar
      then (do
        change (add_kidecar_container ctl.image config)
        r ← gets (λ r. r)
        on_server (
            ensure_configmap ctl.client ctl.hash (build_config_yaml ctl.encoder config.spec.kidecar)
              r.pod.namespace))
      else (do
        change (add_containers config.spec.injection.containers)
        change (add_init_containers config.spec.injection.init_containers))

  pub count_match : SidecarConfigStatus → SidecarConfig → SidecarConfigStatus
  unfolding next_int32
  count_match status origin = record (origin.status) {
    matched_pods = next_int32 status.matched_pods;
  }

  -- The function that the update of the status retries.
  unfoldable pub update_status_once : SidecarConfig → Exec W (Unit {0})
  unfolding count_match
  update_status_once config = do
    origin ← ctl.client.get_sidecar_config config.namespace config.name
    ctl.client.update_status (record origin { status = count_match config.status origin })

  -- An error is logged, and the injection goes on.
  pub update_status : SidecarConfig → Exec (Request W) (Unit {0})
  unfolding update_status_once
  update_status config = do
    logged ← attempt (on_server (ctl.client.retry_on_conflict (update_status_once config)))
    pure tt

  -- What InjectPod changes in the pod behind the containers.
  pub finish : SidecarConfig → Exec (Request W) (Unit {0})
  unfolding is_set change add_volumes add_volume_mounts share_process_namespace add_annotations
  finish config = do
    change (add_volumes config.spec.injection.volumes)
    change (add_volume_mounts config.spec.injection.volume_mounts)
    change (share_process_namespace (is_set config.spec.injection.share_process_namespace))
    change (add_annotations config.annotations)

  unfoldable pub inject_with : SidecarConfig → Exec (Request W) (Unit {0})
  unfolding inject_service_account is_set inject_containers finish update_status
  inject_with config = do
    inject_service_account config.spec.injection.service_account_name
        (is_set config.spec.injection.force_inject_service_account)
    inject_containers config
    finish config
    update_status config

  unless_injected : SidecarConfig → Exec (Request W) (Unit {0})
  unfolding inject_with
  unless_injected config = do
    r ← gets (λ r. r)
    if is_some (find inject_annotation_key r.pod.annotations) then pure tt else inject_with config

  if_matched : Option SidecarConfig → Exec (Request W) (Unit {0})
  unfolding unless_injected
  if_matched none = pure tt
  if_matched (some config) = unless_injected config

  unfoldable pub inject_pod : Exec (Request W) (Unit {0})
  unfolding get_sidecar_config_of_pod if_matched
  inject_pod = do
    r ← gets (λ r. r)
    config ← on_server (get_sidecar_config_of_pod ctl.client r.pod)
    if_matched config

-- What the webhook is called with: a pod, or an object of another kind.
pub data AdmissionObject : Type 0 where
  pod : AdmissionObject
  other : String → AdmissionObject

-- PodInjector.Default
unfoldable pub default_object :
    {W J : Type 0} → Controller W J → AdmissionObject → Exec (Request W) (Unit {0})
unfolding inject_pod
default_object ctl (other kind) = fail (msg (str_append "expected a Pod but got a " kind))
default_object ctl pod = wrapping "failed to inject pod" (inject_pod ctl)
