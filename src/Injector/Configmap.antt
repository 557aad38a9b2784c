-- ===== src/Injector/Configmap.antt =====
-- pkg/injector/configmap.go: the configmap from which an injected kidecar reads its configuration.
pub mod Ensure
use kidecar.Base.{
  String, Bool, not, ◌⊎◌, inl, inr, Option, none, some, [], ◌∷◌, str_eq, if◌then◌else◌,
}
use kidecar.Base.Maps.{GoMap, find, insert}
use kidecar.Base.Outcome.{Err, Outcome, nil_map}
use kidecar.Base.Exec.{Exec, pure, fail, crash, lift, wrapping, attempt, ◌>>=◌}
use kidecar.Kube.{ConfigMap}
use kidecar.Injector.Client.{Client}
use kidecar.Injector.Mutate.{kidecar_configmap_name}

abbrev pub configmap_hash_key : String
configmap_hash_key = "sidecarconfig.kidecar.io/hash"

abbrev pub config_file : String
config_file = "config.yaml"

module _ {W : Type 0} (client : Client W) (hash : String → String) where
  -- hash(yaml) differs from the annotation, which reads as "" where there is none
  or_empty : Option String → String
  or_empty none = ""
  or_empty (some v) = v

  unfoldable pub is_config_changed : String → ConfigMap → Bool
  unfolding or_empty
  is_config_changed yaml cm =
      not (str_eq (or_empty (find configmap_hash_key cm.annotations)) (hash yaml))

  -- m[k] = v
  assign : String → String → GoMap String → Exec W (GoMap String)
  unfolding insert
  assign k v none = crash nil_map
  assign k v (some m) = pure (some (insert k v m))

  -- The function that updateConfigmap retries.
  unfoldable pub update_once : String → String → Exec W (Unit {0})
  unfolding assign
  update_once namespace yaml = do
    cm ← client.get_configmap namespace kidecar_configmap_name
    contents ← assign config_file yaml cm.contents
    annotations ← assign configmap_hash_key (hash yaml) cm.annotations
    client.update_configmap (record cm { contents = contents; annotations = annotations })

  unfoldable pub update_configmap : String → String → Exec W (Unit {0})
  unfolding update_once
  update_configmap namespace yaml = client.retry_on_conflict (update_once namespace yaml)

  unfoldable pub new_configmap : String → String → ConfigMap
  new_configmap namespace yaml = record {
    name = kidecar_configmap_name;
    namespace = namespace;
    annotations = some ((configmap_hash_key, hash yaml) ∷ []);
    contents = some ((config_file, yaml) ∷ []);
  }

  or_exists : Err ⊎ Unit {0} → Exec W (Unit {0})
  or_exists (inr u) = pure tt
  or_exists (inl e) = if client.is_already_exists e then pure tt else fail e

  unfoldable pub create_configmap : String → String → Exec W (Unit {0})
  unfolding new_configmap or_exists
  create_configmap namespace yaml = do
    r ← attempt (client.create_configmap (new_configmap namespace yaml))
    or_exists r

  ensure_from : String → String → Err ⊎ ConfigMap → Exec W (Unit {0})
  unfolding create_configmap update_configmap is_config_changed
  ensure_from namespace yaml (inl e) =
      if client.is_not_found e then create_configmap namespace yaml else fail e
  ensure_from namespace yaml (inr cm) =
      if is_config_changed yaml cm then update_configmap namespace yaml else pure tt

  -- EnsureConfigmap, behind buildConfigYaml
  unfoldable pub ensure_configmap : Outcome String → String → Exec W (Unit {0})
  unfolding ensure_from
  ensure_configmap config namespace = do
    yaml ← wrapping "failed to marshal SidecarConfig to YAML" (lift config)
    r ← attempt (client.get_configmap namespace kidecar_configmap_name)
    ensure_from namespace yaml r
