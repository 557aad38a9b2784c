-- ===== src/HotUpdate/Load/Pair.antt =====
-- What the handler does behind the download leaves the version and the URL as they are.
use kidecar.Base.{refl, String, Option, none, some, [], ◌∷◌}
use kidecar.Base.Outcome.{err}
use kidecar.Store.Persistent.{set_persistence_info}
use kidecar.HotUpdate.Config.{Signal, plugin_name}
use kidecar.HotUpdate.Processes.{split_lines, find_pid}
use kidecar.HotUpdate.State.{Services, on_host}
use kidecar.HotUpdate.Pair.{
  KeepsPair, lift-KeepsPair, gets-KeepsPair, wrapping-KeepsPair, masking-KeepsPair,
  on_host-KeepsPair, on_process-KeepsPair, then-KeepsPair,
}
use kidecar.HotUpdate.Load.{
  send_signal, load_hot_update_file_by_signal, put_parsed, parse_storage, put_stored, store_text,
  store_result, store_data_to_configmap,
}

module _ {W F : Type 0} (lib : Services W F) where
  send_signal-KeepsPair : (s : Signal) (o : Option String) → KeepsPair (send_signal lib s o)
  unfolding send_signal
  send_signal-KeepsPair s none = lift-KeepsPair W (err _)
  send_signal-KeepsPair s (some pid) =
      wrapping-KeepsPair _ _ (on_host-KeepsPair (lib.host.kill s.signal_name pid))

  pub load_hot_update_file_by_signal-KeepsPair : KeepsPair (load_hot_update_file_by_signal lib)
  unfolding load_hot_update_file_by_signal
  load_hot_update_file_by_signal-KeepsPair =
      then-KeepsPair _ _
        (wrapping-KeepsPair "failed to get process list, err" (on_host lib.host.ps_aux)
          (on_host-KeepsPair lib.host.ps_aux))
        (λ psout. then-KeepsPair _ _ (gets-KeepsPair (λ h. h)) (λ h.
          send_signal-KeepsPair h.config.signal
            (find_pid h.config.signal.process_name (split_lines psout))))

  parse_storage-KeepsPair : KeepsPair (parse_storage lib)
  unfolding parse_storage put_parsed KeepsPair
  parse_storage-KeepsPair h = refl

  store_text-KeepsPair : (text : String) → KeepsPair (store_text lib text)
  unfolding store_text put_stored KeepsPair
  store_text-KeepsPair text h = refl

  pub store_result-KeepsPair : KeepsPair (store_result lib)
  unfolding store_result
  store_result-KeepsPair =
      then-KeepsPair _ _
        (wrapping-KeepsPair "failed to parse config" (parse_storage lib) parse_storage-KeepsPair)
        (λ u. then-KeepsPair _ _ (gets-KeepsPair (λ h. h.result.result)) store_text-KeepsPair)

  pub store_data_to_configmap-KeepsPair : KeepsPair (store_data_to_configmap lib)
  unfolding store_data_to_configmap
  store_data_to_configmap-KeepsPair = then-KeepsPair _ _ (gets-KeepsPair (λ h. h.result)) (λ r.
      masking-KeepsPair _ _ (
        on_process-KeepsPair (
          set_persistence_info lib.kube lib.yaml lib.env
            (some (record { type = plugin_name; result = some ((r.version, r.url) ∷ []) })))))
