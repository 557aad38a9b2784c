-- ===== src/HotUpdate/Handler/Refused.antt =====
-- The requests to /hot-update that are refused.
use kidecar.Base.{
  ℕ, ◌≡◌, refl, Bool, Bool-cases, true, false, inl, inr, ◌⊎◌, ◌&&◌, ◌||◌, not, ◌∷◌, arith, str_eq,
}
use kidecar.Base.Outcome.{ok}
use kidecar.HotUpdate.Config.{url_key}
use kidecar.HotUpdate.Version.{is_valid_version}
use kidecar.HotUpdate.State.{HttpRequest, HotUpdate, Services, form_value}
use kidecar.HotUpdate.Handler.{hot_update_handle}

-- A POST with a version and a URL.
abbrev pub is_accepted : HttpRequest → Bool
is_accepted r =
    str_eq r.method "POST"
    && (is_valid_version (form_value r "version") && not (str_eq (form_value r url_key) ""))

-- The plugin has only answered: the code comes in front of those that were written before.
abbrev pub OnlyAnswered : {W : Type 0} → ℕ → HotUpdate W → HotUpdate W → Type 0
OnlyAnswered code h h' =
    (h'.proc ≡ h.proc)
    × (h'.config ≡ h.config)
    × (h'.factory ≡ h.factory)
    × (h'.result.result ≡ h.result.result)
    × (h'.result.url ≡ h.result.url)
    × (h'.response.codes ≡ code ∷ h.response.codes)

module _ {W F : Type 0} (lib : Services W F) where
  -- A request that is not a POST is answered with 405, and a POST without a valid version or without
  -- a URL with 400. In both cases nothing is downloaded, loaded or stored: the process, the
  -- API server, the configuration, the storages, the URL and the result are as they were.
  pub hot_update_handle-refused :
      (r : HttpRequest) (h : HotUpdate W)
      → is_accepted r ≡ false
      → ((hot_update_handle lib r h).0 ≡ ok tt)
        × (((str_eq r.method "POST" ≡ false) × OnlyAnswered 405 h (hot_update_handle lib r h).1)
            ⊎ ((str_eq r.method "POST" ≡ true) × OnlyAnswered 400 h (hot_update_handle lib r h).1))
  unfolding hot_update_handle
  hot_update_handle-refused r h n =
      let version = form_value r "version" in
      elim (Bool-cases (str_eq r.method "POST")) [
        | inr m ↦ rw m (refl, inl (refl, (refl, refl, refl, refl, refl, refl)))
        | inl m ↦ elim (Bool-cases (str_eq version "" || not (is_valid_version version))) [
          | inl v ↦ rw (m, v) (refl, inr (refl, (refl, refl, refl, refl, refl, refl)))
          | inr v ↦ elim (Bool-cases (str_eq (form_value r url_key) "")) [
            | inl u ↦ rw (m, v, u) (refl, inr (refl, (refl, refl, refl, refl, refl, refl)))
            | inr u ↦ ground (arith, m, v, u, n)
          ]
        ]
      ]
