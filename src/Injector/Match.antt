-- ===== src/Injector/Match.antt =====
-- The first half of pkg/injector/pod.go: which SidecarConfig a pod falls under.
pub mod First
use Prim.Native.String.{◌++◌ as str_append}
use kidecar.Base.{String, Bool, true, false, Option, none, some, List, [], ◌∷◌, if◌then◌else◌}
use kidecar.Base.Maps.{GoMap}
use kidecar.Base.Exec.{Exec, pure, lift, wrapping, ◌>>=◌}
use kidecar.Kube.{Pod, LabelSelector}
use kidecar.Api.{SidecarConfig, SidecarConfigSpec}
use kidecar.Injector.Client.{Client}

module _ {W : Type 0} (client : Client W) where
  unfoldable pub match_label_selector : Option LabelSelector → GoMap String → Exec W Bool
  match_label_selector none labels = pure true
  match_label_selector (some selector) labels = do
    matches ← lift (client.label_selector_as_selector (some selector))
    pure (matches labels)

  unfoldable pub match_namespace : String → Option LabelSelector → Exec W Bool
  match_namespace namespace none = pure true
  match_namespace namespace (some selector) = do
    matches ← lift (client.label_selector_as_selector (some selector))
    labels ←
        wrapping (str_append "failed to get namespace " namespace) (client.get_namespace namespace)
    pure (matches labels)

  -- Both functions return true at a nil selector, which `Match` does not call them with.
  unfoldable pub match_pod : Pod → SidecarConfigSpec → Exec W Bool
  unfolding match_label_selector match_namespace
  match_pod pod spec = do
    in_namespace ← match_namespace pod.namespace spec.injection.namespace_selector
    if in_namespace then match_label_selector spec.injection.selector pod.labels else pure false

  -- The loop over sidecarconfigList.Items.
  unfoldable pub first_match : Pod → List SidecarConfig → Exec W (Option SidecarConfig)
  unfolding match_pod
  first_match pod [] = pure none
  first_match pod (config ∷ rest) =
      let later = first_match pod rest in
      do
        matched ← wrapping "failed to match SidecarConfig" (match_pod pod config.spec)
        if matched then pure (some config) else later

  unfoldable pub get_sidecar_config_of_pod : Pod → Exec W (Option SidecarConfig)
  unfolding first_match
  get_sidecar_config_of_pod pod = do
    items ← wrapping "failed to list SidecarConfig" client.list_sidecar_configs
    first_match pod items
