-- ===== src/Kube.antt =====
-- The Kubernetes objects that kidecar reads and writes (k8s.io/api/core/v1 and apimachinery), with
-- the fields that it touches. What it does not touch stays in the object and is not modelled.
use kidecar.Base.{ℕ, String, Bool, Option, List}
use kidecar.Base.Maps.{GoMap}

pub record EnvVar : Type 0 where
  pub name : String
  pub value : String
  -- valueFrom.fieldRef.fieldPath
  pub field_path : Option String

pub record ContainerPort : Type 0 where
  pub name : String
  pub container_port : ℕ

pub record VolumeMount : Type 0 where
  pub name : String
  pub mount_path : String

pub record Container : Type 0 where
  pub name : String
  pub image : String
  pub env : List EnvVar
  pub ports : List ContainerPort
  pub volume_mounts : List VolumeMount
  pub restart_policy : Option String

pub record Volume : Type 0 where
  pub name : String
  -- volumeSource.configMap.name; `none` is a source of another kind
  pub config_map : Option String

pub record Pod : Type 0 where
  pub name : String
  pub namespace : String
  pub labels : GoMap String
  pub annotations : GoMap String
  pub service_account_name : String
  pub containers : List Container
  pub init_containers : List Container
  pub volumes : List Volume
  pub share_process_namespace : Option Bool
  pub phase : String

pub record ConfigMap : Type 0 where
  pub name : String
  pub namespace : String
  pub annotations : GoMap String
  pub contents : GoMap String

pub record Requirement : Type 0 where
  pub key : String
  pub operator : String
  pub values : List String

-- metav1.LabelSelector
pub record LabelSelector : Type 0 where
  pub match_labels : GoMap String
  pub match_expressions : List Requirement
