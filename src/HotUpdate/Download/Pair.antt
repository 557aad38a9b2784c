-- ===== src/HotUpdate/Download/Pair.antt =====
-- A download leaves the version and the URL as they are.
use kidecar.Base.{String, Bool, true, false}
use kidecar.Base.Outcome.{ok}
use kidecar.Base.Exec.{Exec, lift, wrapping}
use kidecar.HotUpdate.State.{Services, on_host}
use kidecar.HotUpdate.Pair.{
  KeepsPair, lift-KeepsPair, gets-KeepsPair, wrapping-KeepsPair, on_host-KeepsPair, then-KeepsPair,
}
use kidecar.HotUpdate.Download.{ensure_dir, clear_file, save_path, download_file_by_url}

module _ {W F : Type 0} (lib : Services W F) where
  -- A call of the host, whose error is wrapped.
  hosted-KeepsPair : {A : Type 0} (t : String) (m : Exec W A) → KeepsPair (wrapping t (on_host m))
  hosted-KeepsPair t m = wrapping-KeepsPair t (on_host m) (on_host-KeepsPair m)

  ensure_dir-KeepsPair : (b : Bool) (dir : String) → KeepsPair (ensure_dir lib b dir)
  unfolding ensure_dir
  ensure_dir-KeepsPair true dir = hosted-KeepsPair _ (lib.host.mkdir_all dir)
  ensure_dir-KeepsPair false dir = lift-KeepsPair W (ok tt)

  clear_file-KeepsPair : (b : Bool) (path : String) → KeepsPair (clear_file lib b path)
  unfolding clear_file
  clear_file-KeepsPair true path = hosted-KeepsPair _ (lib.host.remove path)
  clear_file-KeepsPair false path = lift-KeepsPair W (ok tt)

  pub download_file_by_url-KeepsPair : KeepsPair (download_file_by_url lib)
  unfolding download_file_by_url
  download_file_by_url-KeepsPair = then-KeepsPair _ _ (gets-KeepsPair (λ h. h)) (λ h.
      then-KeepsPair _ _ (on_host-KeepsPair (lib.host.missing h.config.file_dir)) (λ no_dir.
        then-KeepsPair _ _ (ensure_dir-KeepsPair no_dir h.config.file_dir) (λ u.
          then-KeepsPair _ _
            (wrapping-KeepsPair "failed to create request for URL"
              (lift (lib.host.url_path h.result.url))
              (lift-KeepsPair W (lib.host.url_path h.result.url)))
            (λ path.
              then-KeepsPair _ _ (on_host-KeepsPair (lib.host.exists (save_path lib h path)))
                (λ old. then-KeepsPair _ _ (clear_file-KeepsPair old (save_path lib h path)) (λ v.
                  then-KeepsPair _ _ (hosted-KeepsPair _ (lib.host.http_get h.result.url))
                    (λ answer.
                      then-KeepsPair _ _
                        (hosted-KeepsPair _ (lib.host.create (save_path lib h path)))
                        (λ w.
                          hosted-KeepsPair _ (lib.host.copy (save_path lib h path) answer.1)))))))))
