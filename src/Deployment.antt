-- ===== src/Deployment.antt =====
-- What runs in a pod that was injected: how the container of pkg/injector/pod.go, the configmap of
-- pkg/injector/configmap.go and the program cmd/sidecar/main.go meet, through the kubelet.
pub mod Loads
use Prim.Native.String.{◌++◌ as str_append}
use kidecar.Base.{◌≡◌, String, Option, some, List, ◌∷◌, [], map}
use kidecar.Base.Maps.{Entries, HasKeysOnce, lookup, find}
use kidecar.Base.Outcome.{Outcome, ok}
use kidecar.Kube.{EnvVar, Container, Pod, ConfigMap, Volume, VolumeMount}
use kidecar.Process.{Environ}
use kidecar.Api.Sidecar.{SidecarConfig}
use kidecar.Injector.Encode.{Encoder}

-- The kubelet, as a container of a pod sees it: its environment, and its files where the namespace
-- has the configmaps.
pub record Kubelet : Type 0 where
  pub environ : Pod → Container → Environ
  pub read_file : (String → Option ConfigMap) → Pod → Container → String → Outcome String

abbrev pub variables : List EnvVar → Entries EnvVar
variables env = map (λ v. (v.name, v)) env

abbrev pub volumes_by_name : List Volume → Entries Volume
volumes_by_name volumes = map (λ v. (v.name, v)) volumes

-- What Kubernetes documents of the downward API, and of a volume that is a configmap.
pub record KubeletLaws (kubelet : Kubelet) : Type 0 where
  pub own_name :
      (pod : Pod) (c : Container) (k : String) (v : EnvVar)
      → HasKeysOnce (variables c.env)
      → lookup k (variables c.env) ≡ some v
      → v.field_path ≡ some "metadata.name"
      → lookup k (kubelet.environ pod c) ≡ some pod.name
  pub own_namespace :
      (pod : Pod) (c : Container) (k : String) (v : EnvVar)
      → HasKeysOnce (variables c.env)
      → lookup k (variables c.env) ≡ some v
      → v.field_path ≡ some "metadata.namespace"
      → lookup k (kubelet.environ pod c) ≡ some pod.namespace
  pub mounted :
      (configmaps : String → Option ConfigMap) (pod : Pod) (c : Container) (mount : VolumeMount)
      (volume : Volume) (name file text : String) (cm : ConfigMap)
      → c.volume_mounts ≡ mount ∷ []
      → lookup mount.name (volumes_by_name pod.volumes) ≡ some volume
      → volume.config_map ≡ some name
      → configmaps name ≡ some cm
      → find file cm.contents ≡ some text
      → kubelet.read_file configmaps pod c (str_append mount.mount_path (str_append "/" file))
        ≡ ok text

-- What gopkg.in/yaml.v3 keeps of a configuration that one side writes and the other reads, up to `Same`:
-- a nil map comes back as an empty one, and a number may change its Go type.
pub record FileLaws {J : Type 0} (encoder : Encoder J)
    (unmarshal : String → Outcome (Option (SidecarConfig J)))
    (Same : SidecarConfig J → SidecarConfig J → Type 0) : Type 0 where
  pub decoded :
      (written : SidecarConfig J) (text : String)
      → encoder.marshal written ≡ ok text
      → (loaded : SidecarConfig J) × (unmarshal text ≡ ok (some loaded)) × Same written loaded
