-- ===== src/HotUpdate/Requests/Alone.antt =====
-- A goroutine that no other one disturbs.
use kidecar.Base.{
  ◌≡◌, refl, sym, ap, ◌∙◌, ℕ, zero, suc, String, Bool-cases, ◌||◌, not, inl, inr, str_eq,
}
use kidecar.Base.Outcome.{Outcome, ok, err, panic}
use kidecar.Base.Exec.{Exec, continue, caught_end, pure}
use kidecar.HotUpdate.Config.{url_key, load_by_signal_type, load_by_request_type}
use kidecar.HotUpdate.Version.{is_valid_version}
use kidecar.HotUpdate.State.{HttpRequest, HotUpdate, Services, form_value}
use kidecar.HotUpdate.Load.{
  load_hot_update_file_by_signal, load_hot_update_file_by_request, store_result,
  store_data_to_configmap,
}
use kidecar.HotUpdate.Download.{
  download_file_by_url, or_reply, fetch_url, fetch_version, download_hot_update_file,
}
use kidecar.HotUpdate.Handler.{
  store_both, after_signal, load_and_store, try_update, hot_update_handle,
}
use kidecar.HotUpdate.Requests.{
  Phase, received, downloaded, stored, persisted, finished, next, settled, advance, take_version,
  take_url, download, signalled, load,
}

module _ {W F : Type 0} (lib : Services W F) where
  -- As many turns of the goroutine, with no turn of another in between.
  unfoldable pub run_alone : ℕ → Phase × HotUpdate W → Phase × HotUpdate W
  unfolding advance
  run_alone zero s = s
  run_alone (suc n) s = run_alone n (advance lib s)

  run_alone-finished : (n : ℕ) (h : HotUpdate W) → run_alone n (finished, h) ≡ (finished, h)
  unfolding run_alone next settled
  run_alone-finished zero h = refl
  run_alone-finished (suc n) h = run_alone-finished n h

  persisted-settled :
      (x : Outcome (Unit {0}) × HotUpdate W)
      → settled lib (continue x (λ u. pure finished)) ≡ (finished, x.1)
  unfolding settled
  persisted-settled (ok u, h) = refl
  persisted-settled (err e, h) = refl
  persisted-settled (panic f, h) = refl

  -- A part of the handler, and the turns that are left behind it.
  behind :
      (n : ℕ) (p : Phase) (x : Outcome (Unit {0}) × HotUpdate W)
      (rest : Exec (HotUpdate W) (Unit {0}))
      → ((h : HotUpdate W) → run_alone n (p, h) ≡ (finished, (rest h).1))
      → run_alone n (settled lib (continue x (λ u. pure p)))
        ≡ (finished, (continue x (λ u. rest)).1)
  unfolding settled
  behind n p (ok u, h) rest k = k h
  behind n p (err e, h) rest k = run_alone-finished n h
  behind n p (panic f, h) rest k = run_alone-finished n h

  stored-alone : (h : HotUpdate W) → run_alone 2 (stored, h) ≡ (finished, (store_both lib h).1)
  unfolding run_alone next store_both
  stored-alone h =
      behind 1 persisted (store_result lib h) (store_data_to_configmap lib)
        (λ g. persisted-settled (store_data_to_configmap lib g))

  signalled-alone :
      (x : Outcome (Unit {0}) × HotUpdate W)
      → run_alone 2 (settled lib (continue (caught_end x) (signalled lib)))
        ≡ (finished, (continue (caught_end x) (after_signal lib)).1)
  unfolding signalled after_signal settled
  signalled-alone (ok u, h) = stored-alone _
  signalled-alone (err e, h) = run_alone-finished 2 _
  signalled-alone (panic f, h) = run_alone-finished 2 _

  load-alone :
      (type : String) (h : HotUpdate W)
      → run_alone 2 (settled lib (load lib type h)) ≡ (finished, (load_and_store lib type h).1)
  unfolding load load_and_store load_hot_update_file_by_request settled
  load-alone type h = elim (Bool-cases (str_eq type load_by_signal_type)) [
    | inl s ↦ rw s (signalled-alone (load_hot_update_file_by_signal lib h))
    | inr s ↦ elim (Bool-cases (str_eq type load_by_request_type)) [
      | inl r ↦ rw (s, r) (stored-alone h)
      | inr r ↦ rw (s, r) (stored-alone h)
    ]
  ]

  -- What is left of the handler when the file is there.
  abbrev loading : Exec (HotUpdate W) (Unit {0})
  loading h = load_and_store lib h.config.load_patch_type h

  downloaded-alone : (h : HotUpdate W) → run_alone 3 (downloaded, h) ≡ (finished, (loading h).1)
  unfolding run_alone next
  downloaded-alone h = load-alone h.config.load_patch_type h

  addressed-alone :
      (x : Outcome (Unit {0}) × HotUpdate W)
      → run_alone 3 (
          settled lib
            (continue (caught_end x) (λ r s. continue (or_reply lib r s) (λ u. pure downloaded))))
        ≡ (finished, (continue (continue (caught_end x) (or_reply lib)) (λ u. loading)).1)
  unfolding or_reply settled
  addressed-alone (ok u, h) = downloaded-alone h
  addressed-alone (err e, h) = run_alone-finished 3 _
  addressed-alone (panic f, h) = run_alone-finished 3 _

  url-alone :
      (url : String) (h : HotUpdate W)
      → run_alone 4 (settled lib (take_url lib url h))
        ≡ (finished, (continue (fetch_url lib url h) (λ u. loading)).1)
  unfolding take_url fetch_url run_alone next download settled
  url-alone url h = elim (Bool-cases (str_eq url "")) [
    | inl e ↦ rw e (run_alone-finished 4 _)
    | inr e ↦ rw e (
        addressed-alone
          (download_file_by_url lib (record h { result = record (h.result) { url = url } })))
  ]

  version-alone :
      (r : HttpRequest) (version : String) (h : HotUpdate W)
      → run_alone 5 (settled lib (take_version lib r version h))
        ≡ (finished, (continue (fetch_version lib r version h) (λ u. loading)).1)
  unfolding take_version fetch_version run_alone next settled
  version-alone r version h =
      elim (Bool-cases (str_eq version "" || not (is_valid_version version))) [
        | inl e ↦ rw e (run_alone-finished 5 _)
        | inr e ↦ rw e (url-alone (form_value r url_key) _)
      ]

  try-alone :
      (r : HttpRequest) (h : HotUpdate W)
      → run_alone 6 (received r, h) ≡ (finished, (try_update lib r h).1)
  unfolding run_alone next try_update download_hot_update_file settled
  try-alone r h = elim (Bool-cases (str_eq r.method "POST")) [
    | inl e ↦ rw e (version-alone r (form_value r "version") h)
    | inr e ↦ rw e (run_alone-finished 5 _)
  ]

  caught-state :
      (x : Outcome (Unit {0}) × HotUpdate W)
      → (continue (caught_end x) (λ r. pure {A = Unit {0}} tt)).1 ≡ x.1
  caught-state (ok u, h) = refl
  caught-state (err e, h) = refl
  caught-state (panic f, h) = refl

  -- A goroutine that no other one disturbs is at its end after six turns, whatever fails or panics, and
  -- has left the plugin, the process and its response as `hotUpdateHandle` of its request does.
  run_alone-hot_update_handle :
      (r : HttpRequest) (h : HotUpdate W)
      → run_alone 6 (received r, h) ≡ (finished, (hot_update_handle lib r h).1)
  unfolding hot_update_handle
  run_alone-hot_update_handle r h =
      try-alone r h ∙ ap (λ g. (finished, g)) (sym (caught-state (try_update lib r h)))
