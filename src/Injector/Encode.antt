-- ===== src/Injector/Encode.antt =====
-- The first half of pkg/injector/configmap.go: a SidecarConfig resource as the configuration file of
-- the sidecar.
pub mod Plugins
pub mod Written
use kidecar.Base.{String, Option, none, some, List, [], ◌∷◌, str_eq, if◌then◌else◌}
use kidecar.Base.Outcome.{Outcome, ok, err, panic, wrap}
use kidecar.Api
use kidecar.Api.Sidecar

-- encoding/json into an object, and yaml.v3 of the whole configuration.
pub record Encoder (J : Type 0) : Type 0 where
  pub unmarshal : String → Outcome J
  pub marshal : Sidecar.SidecarConfig J → Outcome String

module _ {J : Type 0} (encoder : Encoder J) where
  decoded : Outcome J → Outcome (Option J)
  decoded (ok j) = ok (some j)
  decoded (err e) = err (wrap "failed to unmarshal raw extension" e)
  decoded (panic p) = panic p

  unfoldable pub convert_raw_to_map : Option String → Outcome (Option J)
  unfolding decoded
  convert_raw_to_map none = ok none
  convert_raw_to_map (some raw) = if str_eq raw "" then ok none else decoded (encoder.unmarshal raw)

  -- The loop over config.Plugins; the list is built from its front.
  unfoldable pub convert_plugins : List Api.PluginConfig → Outcome (List (Sidecar.PluginConfig J))
  unfolding convert_raw_to_map
  convert_plugins [] = ok []
  convert_plugins (plugin ∷ rest) = elim (convert_raw_to_map plugin.config) [
    | ok config ↦ elim (convert_plugins rest) [
      | ok plugins ↦ ok (
          record {
            name = plugin.name;
            binary = plugin.binary;
            config = config;
            boot_order = plugin.boot_order;
          }
          ∷ plugins)
      | err e ↦ err e
      | panic p ↦ panic p
    ]
    | err e ↦ err (wrap "failed to convert raw extension to map" e)
    | panic p ↦ panic p
  ]

  unfoldable pub convert_kube_config_to_sidecar_config :
      Api.KidecarConfig → Outcome (Sidecar.SidecarConfig J)
  unfolding convert_plugins
  convert_kube_config_to_sidecar_config config = elim (convert_plugins config.plugins) [
    | ok plugins ↦ ok (record {
      plugins = plugins;
      restart_policy = config.restart_policy;
      resources = config.resources;
      sidecar_start_order = config.sidecar_start_order;
    })
    | err e ↦ err e
    | panic p ↦ panic p
  ]

  marshalled : Outcome String → Outcome String
  marshalled (ok text) = ok text
  marshalled (err e) = err (wrap "failed to marshal kidecarConfig to YAML" e)
  marshalled (panic p) = panic p

  unfoldable pub build_config_yaml : Api.KidecarConfig → Outcome String
  unfolding convert_kube_config_to_sidecar_config marshalled
  build_config_yaml config = elim (convert_kube_config_to_sidecar_config config) [
    | ok converted ↦ marshalled (encoder.marshal converted)
    | err e ↦ err (wrap "failed to convert kube config to sidecar config" e)
    | panic p ↦ panic p
  ]
