-- ===== src/HotUpdate/Start.antt =====
-- `setHotUpdateConfigWhenStart` of pkg/plugins/hot_update/executor.go: what was loaded before a
-- restart is loaded again.
use Prim.Native.String.{◌++◌ as str_append}
use kidecar.Base.{String, Bool, ◌&&◌, ◌⊎◌, inl, inr, none, some, str_eq, eqb, length, if◌then◌else◌}
use kidecar.Base.Maps.{Entries, entries, lookup}
use kidecar.Base.Outcome.{Err, msg, error_text}
use kidecar.Base.Exec.{Exec, pure, fail, gets, wrapping, masking, attempt, ◌>>=◌, ◌>>◌}
use kidecar.Store.Persistent.{get_persistence_info}
use kidecar.HotUpdate.Config.{
  plugin_name, load_by_signal_type, load_by_request_type, origin_version, origin_url,
}
use kidecar.HotUpdate.Version.{newest}
use kidecar.HotUpdate.State.{
  HotUpdate, Services, or_empty, on_process, set_version, set_url, set_result,
}
use kidecar.HotUpdate.Load.{
  load_hot_update_file_by_signal, load_hot_update_file_by_request, store_result,
  store_data_to_configmap,
}
use kidecar.HotUpdate.Download.{download_file_by_url}

module _ {W F : Type 0} (lib : Services W F) where
  record_origin : Exec (HotUpdate W) (Unit {0})
  unfolding set_version set_url store_data_to_configmap
  record_origin = do
    set_version origin_version
    set_url origin_url
    wrapping "failed to store data to configmap" (store_data_to_configmap lib)

  after_restart : Err ⊎ Unit {0} → Exec (HotUpdate W) (Unit {0})
  unfolding set_result
  after_restart (inl e) = do
    v ← gets (λ h. h.result.version)
    set_result
        (str_append v (str_append ": Failed to load hot update file by signal: " (error_text e)))
    fail (msg "failed to load hot update file by signal")
  after_restart (inr u) = do
    v ← gets (λ h. h.result.version)
    set_result (str_append v ": Update success")

  load_again : String → Exec (HotUpdate W) (Unit {0})
  unfolding load_hot_update_file_by_signal load_hot_update_file_by_request after_restart
  load_again type =
      if str_eq type load_by_signal_type
      then (do r ← attempt (load_hot_update_file_by_signal lib); after_restart r)
      else if str_eq type load_by_request_type
      then (load_hot_update_file_by_request lib)
      else pure tt

  restore : String × String → Exec (HotUpdate W) (Unit {0})
  unfolding set_version set_url download_file_by_url load_again store_result store_data_to_configmap
  restore best = do
    set_version best.0
    set_url best.1
    wrapping "failed to download file" (download_file_by_url lib)
    type ← gets (λ h. h.config.load_patch_type)
    load_again type
    wrapping "failed to store data" (store_result lib)
    wrapping "failed to store data to configmap" (store_data_to_configmap lib)

  -- len(result) == 1 && result[OriginVersion] == OriginUrl
  only_origin : Entries String → Bool
  unfolding or_empty lookup
  only_origin res = eqb (length res) 1 && str_eq (or_empty (lookup origin_version res)) origin_url

  start_from : Entries String → Exec (HotUpdate W) (Unit {0})
  unfolding record_origin only_origin restore newest
  start_from res =
      if eqb (length res) 0
      then record_origin
      else if only_origin res
      then record_origin
      else restore (newest lib.semver ("", "") res)

  unfoldable pub set_hot_update_config_when_start : Exec (HotUpdate W) (Unit {0})
  unfolding on_process get_persistence_info start_from
  set_hot_update_config_when_start = do
    p ← masking "failed to GetPersistenceInfo of hot_update " (
        on_process (
          get_persistence_info lib.kube lib.yaml lib.env
            (some (record { type = plugin_name; result = none }))))
    start_from (entries p.result)
