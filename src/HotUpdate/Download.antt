-- ===== src/HotUpdate/Download.antt =====
-- `downloadFileByUrl` and `downloadHotUpdateFile` of pkg/plugins/hot_update/executor.go.
pub mod Pair
use Prim.Native.String.{◌++◌ as str_append}
use kidecar.Base.{String, Bool, true, false, ◌||◌, not, ◌⊎◌, inl, inr, str_eq, if◌then◌else◌}
use kidecar.Base.Outcome.{Err, msg, error_text}
use kidecar.Base.Exec.{Exec, pure, fail, lift, gets, wrapping, attempt, ◌>>=◌, ◌>>◌}
use kidecar.HotUpdate.Config.{url_key}
use kidecar.HotUpdate.Version.{is_valid_version}
use kidecar.HotUpdate.State.{
  HttpRequest, HotUpdate, Services, form_value, on_host, reply, set_version, set_url,
}

module _ {W F : Type 0} (lib : Services W F) where
  ensure_dir : Bool → String → Exec (HotUpdate W) (Unit {0})
  unfolding on_host
  ensure_dir true dir = wrapping "failed to create directory" (on_host (lib.host.mkdir_all dir))
  ensure_dir false dir = pure tt

  clear_file : Bool → String → Exec (HotUpdate W) (Unit {0})
  unfolding on_host
  clear_file true path = wrapping "failed to delete file" (on_host (lib.host.remove path))
  clear_file false path = pure tt

  save_path : HotUpdate W → String → String
  save_path h path = lib.host.join h.config.file_dir (lib.host.base path)

  unfoldable pub download_file_by_url : Exec (HotUpdate W) (Unit {0})
  unfolding on_host ensure_dir clear_file save_path
  download_file_by_url = do
    h ← gets (λ h. h)
    no_dir ← on_host (lib.host.missing h.config.file_dir)
    ensure_dir no_dir h.config.file_dir
    path ← wrapping "failed to create request for URL" (lift (lib.host.url_path h.result.url))
    old ← on_host (lib.host.exists (save_path h path))
    clear_file old (save_path h path)
    answer ← wrapping "failed to download file" (on_host (lib.host.http_get h.result.url))
    wrapping "failed to create file" (on_host (lib.host.create (save_path h path)))
    wrapping "failed to save file" (on_host (lib.host.copy (save_path h path) answer.1))

  -- A failed download is answered with 500.
  unfoldable pub or_reply : Err ⊎ Unit {0} → Exec (HotUpdate W) (Unit {0})
  unfolding reply
  or_reply (inr u) = pure tt
  or_reply (inl e) = do reply 500 (str_append "failed to download file: " (error_text e)); fail e

  unfoldable pub fetch_url : String → Exec (HotUpdate W) (Unit {0})
  unfolding reply set_url download_file_by_url or_reply
  fetch_url url =
      if str_eq url ""
      then (do reply 400 "please provide a valid URL"; fail (msg "please provide a valid URL"))
      else do set_url url; r ← attempt download_file_by_url; or_reply r

  unfoldable pub fetch_version : HttpRequest → String → Exec (HotUpdate W) (Unit {0})
  unfolding reply set_version form_value fetch_url is_valid_version
  fetch_version r version =
      if str_eq version "" || not (is_valid_version version)
      then (do
        reply 400 "please provide a valid version"
        fail (msg "please provide a valid version"))
      else do set_version version; fetch_url (form_value r url_key)

  unfoldable pub download_hot_update_file : HttpRequest → Exec (HotUpdate W) (Unit {0})
  unfolding reply form_value fetch_version
  download_hot_update_file r =
      if str_eq r.method "POST" then fetch_version r (form_value r "version") else do
        reply 405 "only POST requests are allowed"
        fail (msg "only POST requests are allowed")
