-- ===== src/HotUpdate/Handler.antt =====
-- `hotUpdateHandle` of pkg/plugins/hot_update/executor.go: one request to /hot-update.
pub mod Refused
use Prim.Native.String.{◌++◌ as str_append}
use kidecar.Base.{String, ◌⊎◌, inl, inr, str_eq, if◌then◌else◌}
use kidecar.Base.Outcome.{Err, error_text}
use kidecar.Base.Exec.{Exec, pure, fail, gets, attempt, ◌>>=◌, ◌>>◌}
use kidecar.HotUpdate.Config.{load_by_signal_type, load_by_request_type}
use kidecar.HotUpdate.State.{HttpRequest, HotUpdate, Services, reply, set_result}
use kidecar.HotUpdate.Load.{
  load_hot_update_file_by_signal, load_hot_update_file_by_request, store_result,
  store_data_to_configmap,
}
use kidecar.HotUpdate.Download.{download_hot_update_file}

module _ {W F : Type 0} (lib : Services W F) where
  -- The end of the handler: an error is logged and ends it.
  unfoldable pub store_both : Exec (HotUpdate W) (Unit {0})
  unfolding store_result store_data_to_configmap
  store_both = do store_result lib; store_data_to_configmap lib

  unfoldable pub after_signal : Err ⊎ Unit {0} → Exec (HotUpdate W) (Unit {0})
  unfolding reply set_result store_both
  after_signal (inl e) = do
    v ← gets (λ h. h.result.version)
    set_result
        (str_append v (str_append ": Failed to load hot update file by signal: " (error_text e)))
    fail e
  after_signal (inr u) = do
    v ← gets (λ h. h.result.version)
    reply 200 "File downloaded and update successfully"
    set_result (str_append v ": Update success")
    store_both

  unfoldable pub load_and_store : String → Exec (HotUpdate W) (Unit {0})
  unfolding load_hot_update_file_by_signal load_hot_update_file_by_request after_signal store_both
  load_and_store type =
      if str_eq type load_by_signal_type
      then (do r ← attempt (load_hot_update_file_by_signal lib); after_signal r)
      else if str_eq type load_by_request_type
      then (do (load_hot_update_file_by_request lib); store_both)
      else store_both

  unfoldable pub try_update : HttpRequest → Exec (HotUpdate W) (Unit {0})
  unfolding download_hot_update_file load_and_store
  try_update r = do
    download_hot_update_file lib r
    type ← gets (λ h. h.config.load_patch_type)
    load_and_store type

  -- hotUpdateHandle: every error is logged, and ends the handler.
  unfoldable pub hot_update_handle : HttpRequest → Exec (HotUpdate W) (Unit {0})
  unfolding try_update
  hot_update_handle r = do logged ← attempt (try_update r); pure tt
