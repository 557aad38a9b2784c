-- ===== src/HotUpdate/Requests.antt =====
-- Requests to /hot-update that are handled at the same time. net/http runs `hotUpdateHandle` of
-- pkg/plugins/hot_update/executor.go in a goroutine for each, over one plugin object without a lock. A
-- goroutine has six turns, each a stretch of the handler's code; interleavings within a turn are not
-- modelled.
pub mod Alone
pub mod Quiet
pub mod Mixed
use Prim.Native.String.{◌++◌ as str_append}
use kidecar.Base.{
  ℕ, zero, suc, String, ◌||◌, not, ◌⊎◌, inl, inr, List, [], ◌∷◌, str_eq, if◌then◌else◌,
}
use kidecar.Base.Outcome.{Err, Outcome, ok, err, panic, msg, error_text}
use kidecar.Base.Exec.{Exec, pure, fail, gets, attempt, ◌>>=◌, ◌>>◌}
use kidecar.HotUpdate.Config.{url_key, load_by_signal_type, load_by_request_type}
use kidecar.HotUpdate.Version.{is_valid_version}
use kidecar.HotUpdate.State.{
  HttpRequest, Response, HotUpdate, Services, form_value, reply, set_version, set_url, set_result,
}
use kidecar.HotUpdate.Load.{
  load_hot_update_file_by_signal, load_hot_update_file_by_request, store_result,
  store_data_to_configmap,
}
use kidecar.HotUpdate.Download.{download_file_by_url, or_reply}

-- Where a goroutine is: in front of the version, of the URL, of the download, of the load, of storeData,
-- of storeDataToConfigmap, or at its end.
pub data Phase : Type 0 where
  received versioned : HttpRequest → Phase
  addressed downloaded stored persisted finished : Phase

-- A goroutine of net/http, with its own `http.ResponseWriter`.
pub record Handling : Type 0 where
  pub phase : Phase
  pub response : Response

module _ {W F : Type 0} (lib : Services W F) where
  -- downloadHotUpdateFile, up to the version and up to the URL
  take_version : HttpRequest → String → Exec (HotUpdate W) Phase
  unfolding reply set_version is_valid_version
  take_version r version =
      if str_eq version "" || not (is_valid_version version)
      then (do
        reply 400 "please provide a valid version"
        fail (msg "please provide a valid version"))
      else do set_version version; pure (versioned r)

  take_url : String → Exec (HotUpdate W) Phase
  unfolding reply set_url
  take_url url =
      if str_eq url ""
      then (do reply 400 "please provide a valid URL"; fail (msg "please provide a valid URL"))
      else do set_url url; pure addressed

  download : Exec (HotUpdate W) Phase
  unfolding download_file_by_url or_reply
  download = do r ← attempt (download_file_by_url lib); or_reply lib r; pure downloaded

  signalled : Err ⊎ Unit {0} → Exec (HotUpdate W) Phase
  unfolding reply set_result
  signalled (inl e) = do
    v ← gets (λ h. h.result.version)
    set_result
        (str_append v (str_append ": Failed to load hot update file by signal: " (error_text e)))
    fail e
  signalled (inr u) = do
    v ← gets (λ h. h.result.version)
    reply 200 "File downloaded and update successfully"
    set_result (str_append v ": Update success")
    pure stored

  load : String → Exec (HotUpdate W) Phase
  unfolding load_hot_update_file_by_signal load_hot_update_file_by_request signalled
  load type =
      if str_eq type load_by_signal_type
      then (do r ← attempt (load_hot_update_file_by_signal lib); signalled r)
      else if str_eq type load_by_request_type
      then (do (load_hot_update_file_by_request lib); pure stored)
      else pure stored

  -- What a goroutine does in its turn, and where it is then.
  next : Phase → Exec (HotUpdate W) Phase
  unfolding reply form_value take_version take_url download load store_result
      store_data_to_configmap
  next (received r) = if str_eq r.method "POST" then take_version r (form_value r "version") else do
    reply 405 "only POST requests are allowed"
    fail (msg "only POST requests are allowed")
  next (versioned r) = take_url (form_value r url_key)
  next addressed = download
  next downloaded = do type ← gets (λ h. h.config.load_patch_type); load type
  next stored = do store_result lib; pure persisted
  next persisted = do store_data_to_configmap lib; pure finished
  next finished = pure finished

  -- An error is logged and ends the handler; net/http recovers its panics.
  settled : Outcome Phase × HotUpdate W → Phase × HotUpdate W
  settled (ok p, h) = (p, h)
  settled (err e, h) = (finished, h)
  settled (panic f, h) = (finished, h)

  pub advance : Phase × HotUpdate W → Phase × HotUpdate W
  unfolding next settled
  advance (p, h) = settled (next p h)

  -- A turn writes to the goroutine's own response.
  put_back : HotUpdate W → Phase × HotUpdate W → Handling × HotUpdate W
  put_back before (p, h) =
      (record { phase = p; response = h.response }, record h { response = before.response })

  turn : Handling → HotUpdate W → Handling × HotUpdate W
  unfolding advance put_back
  turn g h = put_back h (advance (g.phase, record h { response = g.response }))

  -- The turn of the goroutine of a number; a number without a goroutine has none.
  turn_of : ℕ → List Handling × HotUpdate W → List Handling × HotUpdate W
  unfolding turn
  turn_of n ([], h) = ([], h)
  turn_of zero (g ∷ gs, h) = let (g', h') = turn g h in (g' ∷ gs, h')
  turn_of (suc n) (g ∷ gs, h) = let (gs', h') = turn_of n (gs, h) in (g ∷ gs', h')

  -- Any interleaving: the numbers of the goroutines in the order of their turns.
  unfoldable pub turns : List ℕ → List Handling × HotUpdate W → List Handling × HotUpdate W
  unfolding turn_of
  turns [] s = s
  turns (n ∷ ns) s = turns ns (turn_of n s)
