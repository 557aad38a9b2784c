-- ===== src/HotUpdate/Load.antt =====
-- `loadHotUpdateFileBySignal`, `loadHotUpdateFileByRequest`, `storeData` and `storeDataToConfigmap`
-- of pkg/plugins/hot_update/executor.go.
pub mod Pair
use Prim.Native.String.{◌++◌ as str_append}
use kidecar.Base.{String, Option, none, some, [], ◌∷◌}
use kidecar.Base.Outcome.{Outcome, msg}
use kidecar.Base.Exec.{Exec, pure, fail, gets, wrapping, masking, ◌>>=◌, ◌>>◌}
use kidecar.Process.{Process}
use kidecar.Store.Config.{StorageConfig}
use kidecar.Store.Factory.{StoreState, store_data}
use kidecar.Store.Persistent.{set_persistence_info}
use kidecar.Template.{parse_config}
use kidecar.HotUpdate.Config.{Signal, plugin_name}
use kidecar.HotUpdate.Processes.{split_lines, find_pid}
use kidecar.HotUpdate.State.{HotUpdate, Services, on_process, on_host}

module _ {W F : Type 0} (lib : Services W F) where
  unfoldable pub send_signal : Signal → Option String → Exec (HotUpdate W) (Unit {0})
  unfolding on_host
  send_signal s none = fail (msg (str_append "process not found, processName: " s.process_name))
  send_signal s (some pid) =
      wrapping "failed to send signal to PID" (on_host (lib.host.kill s.signal_name pid))

  unfoldable pub load_hot_update_file_by_signal : Exec (HotUpdate W) (Unit {0})
  unfolding on_host send_signal split_lines find_pid
  load_hot_update_file_by_signal = do
    psout ← wrapping "failed to get process list, err" (on_host lib.host.ps_aux)
    h ← gets (λ h. h)
    send_signal h.config.signal (find_pid h.config.signal.process_name (split_lines psout))

  unfoldable pub load_hot_update_file_by_request : Exec (HotUpdate W) (Unit {0})
  load_hot_update_file_by_request = pure tt

  unfoldable pub put_parsed :
      HotUpdate W
      → Outcome (Unit {0}) × (Process W × StorageConfig)
      → Outcome (Unit {0}) × HotUpdate W
  put_parsed h (r, (p, c)) =
      (r, record h { proc = p; config = record (h.config) { storage_config = c } })

  unfoldable pub parse_storage : Exec (HotUpdate W) (Unit {0})
  unfolding put_parsed parse_config
  parse_storage h = put_parsed h (parse_config lib.kube lib.env (h.proc, h.config.storage_config))

  unfoldable pub put_stored :
      HotUpdate W → Outcome (Unit {0}) × StoreState W → Outcome (Unit {0}) × HotUpdate W
  put_stored h (r, s) = (
    r,
    record h {
      factory = s.factory;
      config = record (h.config) { storage_config = s.config };
      proc = s.proc;
    },
  )

  unfoldable pub store_text : String → Exec (HotUpdate W) (Unit {0})
  unfolding put_stored store_data
  store_text text h = put_stored h (
      store_data lib.kube lib.prom lib.env text
        (record { factory = h.factory; config = h.config.storage_config; proc = h.proc }))

  unfoldable pub store_result : Exec (HotUpdate W) (Unit {0})
  unfolding parse_storage store_text
  store_result = do
    wrapping "failed to parse config" parse_storage
    text ← gets (λ h. h.result.result)
    store_text text

  unfoldable pub store_data_to_configmap : Exec (HotUpdate W) (Unit {0})
  unfolding on_process set_persistence_info
  store_data_to_configmap = do
    r ← gets (λ h. h.result)
    masking "failed to set hot update result to configmap" (
        on_process (
          set_persistence_info lib.kube lib.yaml lib.env
            (some (record { type = plugin_name; result = some ((r.version, r.url) ∷ []) }))))
