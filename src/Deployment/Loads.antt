-- ===== src/Deployment/Loads.antt =====
-- The sidecar in an injected pod loads the configuration that the webhook has written.
use kidecar.Base.{
  ◌≡◌, refl, ap, ◌∙◌, String, Bool, true, false, Option, none, some, List, [], ◌∷◌, ◌++◌, arith,
  str_eq, if◌then◌else◌,
}
use kidecar.Base.Maps.{lookup, find}
use kidecar.Base.Outcome.{Outcome, ok}
use kidecar.Kube.{Pod, Volume, ConfigMap}
use kidecar.Info.{getenv, get_current_pod_namespace_and_name}
use kidecar.Api
use kidecar.Api.Sidecar.{SidecarConfig}
use kidecar.Injector.Client.{Request}
use kidecar.Injector.Encode.{build_config_yaml, convert_kube_config_to_sidecar_config}
use kidecar.Injector.Encode.Written.{build_config_yaml-ok}
use kidecar.Injector.Mutate.{kidecar_container, kidecar_volume, kidecar_configmap_name}
use kidecar.Injector.Configmap.{config_file}
use kidecar.Injector.Inject.{Controller, inject_with}
use kidecar.Injector.Inject.Kidecar.{HasKidecar, inject_with-HasKidecar}
use kidecar.Assembler.State.{Files, Sidecar, load_config}
use kidecar.Assembler.State.Load.{load_config-ok}
use kidecar.Assembler.Main.{default_config_path}
use kidecar.Deployment.{Kubelet, KubeletLaws, FileLaws, volumes_by_name}

lookup-volumes :
    (k : String) (xs ys : List Volume)
    → lookup k (volumes_by_name xs) ≡ none
    → lookup k (volumes_by_name (xs ++ ys)) ≡ lookup k (volumes_by_name ys)
unfolding lookup
lookup-volumes k [] ys h = refl
lookup-volumes k (v ∷ xs) ys h = ground (arith, lookup-volumes k xs ys, h)

kidecar_volume_found :
    lookup kidecar_configmap_name (volumes_by_name (kidecar_volume ∷ [])) ≡ some kidecar_volume
unfolding lookup kidecar_volume
kidecar_volume_found = refl

-- The restart policy of the container: that of a native sidecar, or none.
abbrev pub restart : Bool → Option String
restart native = if native then some "Always" else none

module _ (kubelet : Kubelet) (laws : KubeletLaws kubelet) where
  own_name :
      (pod : Pod) (image : String) (policy : Option String)
      → lookup "POD_NAME" (kubelet.environ pod (kidecar_container image policy)) ≡ some pod.name
  unfolding kidecar_container lookup
  own_name pod image policy =
      laws.own_name pod (kidecar_container image policy) "POD_NAME"
        (record { name = "POD_NAME"; value = ""; field_path = some "metadata.name" })
        (refl, (refl, (refl, tt))) refl refl

  own_namespace :
      (pod : Pod) (image : String) (policy : Option String)
      → lookup "POD_NAMESPACE" (kubelet.environ pod (kidecar_container image policy))
        ≡ some pod.namespace
  unfolding kidecar_container lookup
  own_namespace pod image policy =
      laws.own_namespace pod (kidecar_container image policy) "POD_NAMESPACE"
        (record { name = "POD_NAMESPACE"; value = ""; field_path = some "metadata.namespace" })
        (refl, (refl, (refl, tt))) refl refl

  -- The process knows its pod.
  own_pod :
      (pod : Pod) (image : String) (policy : Option String)
      → str_eq pod.name "" ≡ false
      → str_eq pod.namespace "" ≡ false
      → get_current_pod_namespace_and_name (kubelet.environ pod (kidecar_container image policy))
        ≡ ok (record { namespace = pod.namespace; name = pod.name })
  unfolding get_current_pod_namespace_and_name getenv
  own_pod pod image policy n ns =
      rw (own_name pod image policy, own_namespace pod image policy, n, ns) refl

  -- Its configuration file is the text of the configmap.
  own_file :
      (configmaps : String → Option ConfigMap) (pod : Pod) (image : String) (policy : Option String)
      (cm : ConfigMap) (text : String)
      → lookup kidecar_configmap_name (volumes_by_name pod.volumes) ≡ some kidecar_volume
      → configmaps kidecar_configmap_name ≡ some cm
      → find config_file cm.contents ≡ some text
      → kubelet.read_file configmaps pod (kidecar_container image policy) default_config_path
        ≡ ok text
  unfolding kidecar_container kidecar_volume
  own_file configmaps pod image policy cm text v c t =
      laws.mounted configmaps pod (kidecar_container image policy)
        (record { name = kidecar_configmap_name; mount_path = "/opt/kidecar" }) kidecar_volume
        kidecar_configmap_name config_file text cm refl v refl c t

-- The pod as the API server keeps it, under the name and the namespace that it gives.
abbrev pub named_pod : Pod → String → String → Pod
named_pod pod name namespace = record pod { name = name; namespace = namespace }

-- The files of the container of kidecar, for an image.
abbrev pub files_of :
    {J : Type 0}
    → Kubelet
    → (String → Outcome (Option (SidecarConfig J)))
    → (String → Option ConfigMap)
    → Pod
    → String
    → Bool
    → Files J
files_of kubelet unmarshal configmaps pod image native = record {
  read_file = kubelet.read_file configmaps pod (kidecar_container image (restart native));
  unmarshal = unmarshal;
}

module _ {W J : Type 0} (ctl : Controller W J) (kubelet : Kubelet) (laws : KubeletLaws kubelet)
    (unmarshal : String → Outcome (Option (SidecarConfig J)))
    (Same : SidecarConfig J → SidecarConfig J → Type 0)
    (file_laws : FileLaws ctl.encoder unmarshal Same) where
  injected_volume :
      (config : Api.SidecarConfig) (r r' : Request W)
      → lookup kidecar_configmap_name (volumes_by_name config.spec.injection.volumes) ≡ none
      → lookup kidecar_configmap_name (volumes_by_name r.pod.volumes) ≡ none
      → r'.pod.volumes ≡ config.spec.injection.volumes ++ (r.pod.volumes ++ (kidecar_volume ∷ []))
      → lookup kidecar_configmap_name (volumes_by_name r'.pod.volumes) ≡ some kidecar_volume
  injected_volume config r r' a b e =
      ap (λ vs. lookup kidecar_configmap_name (volumes_by_name vs)) e
      ∙ lookup-volumes kidecar_configmap_name config.spec.injection.volumes _ a
      ∙ lookup-volumes kidecar_configmap_name r.pod.volumes (kidecar_volume ∷ []) b
      ∙ kidecar_volume_found

  -- If InjectPod injects kidecar into a pod without an error, where no volume is named as the one of
  -- kidecar, and the namespace of the pod has the configmap of kidecar with the text of the
  -- configuration, then the pod has the container of kidecar. In it, when the API server has given the
  -- pod a name and a namespace, LoadConfig at the default path succeeds and the sidecar holds the
  -- configuration that was converted from the SidecarConfig, as far as YAML keeps it; and the process
  -- finds that name and namespace as those of its pod.
  pub load_config-inject_with :
      {P H M : Type 0} (config : Api.SidecarConfig) (r r' : Request W)
      (configmaps : String → Option ConfigMap) (cm : ConfigMap) (text name namespace : String)
      (s : Sidecar P H J M)
      → config.spec.injection.inject_kidecar ≡ true
      → inject_with ctl config r ≡ (ok tt, r')
      → lookup kidecar_configmap_name (volumes_by_name config.spec.injection.volumes) ≡ none
      → lookup kidecar_configmap_name (volumes_by_name r.pod.volumes) ≡ none
      → configmaps kidecar_configmap_name ≡ some cm
      → find config_file cm.contents ≡ some text
      → build_config_yaml ctl.encoder config.spec.kidecar ≡ ok text
      → str_eq name "" ≡ false
      → str_eq namespace "" ≡ false
      → HasKidecar ctl.image config.spec.injection.use_kube_native_sidecar r'.pod
        × ((written : SidecarConfig J) × (loaded : SidecarConfig J)
            × (convert_kube_config_to_sidecar_config ctl.encoder config.spec.kidecar ≡ ok written)
            × Same written loaded
            × (load_config
                  (files_of kubelet unmarshal configmaps
                    (named_pod r'.pod name namespace)
                    ctl.image
                    config.spec.injection.use_kube_native_sidecar)
                  default_config_path
                  s
                ≡ (ok tt, record s { config = some loaded })))
        × (get_current_pod_namespace_and_name (
              kubelet.environ (named_pod r'.pod name namespace) (
                kidecar_container ctl.image
                  (restart config.spec.injection.use_kube_native_sidecar)))
            ≡ ok (record { namespace = namespace; name = name }))
  load_config-inject_with config r r' configmaps cm text name namespace s k h v1 v2 held t b n ns =
      let native = config.spec.injection.use_kube_native_sidecar in
      let pod = named_pod r'.pod name namespace in
      let (has, volumes) = inject_with-HasKidecar ctl config r r' k h in
      let (written, converted, marshal) =
        build_config_yaml-ok ctl.encoder config.spec.kidecar text b in
      let (loaded, unmarshalled, same) = file_laws.decoded written text marshal in
      let volume = injected_volume config r r' v1 v2 volumes in
      let file =
        own_file kubelet laws configmaps pod ctl.image (restart native) cm text volume held t in
      (
        has,
        (
          written,
          loaded,
          converted,
          same,
          load_config-ok (files_of kubelet unmarshal configmaps pod ctl.image native)
              default_config_path text (some loaded) s file unmarshalled,
        ),
        own_pod kubelet laws pod ctl.image (restart native) n ns,
      )
