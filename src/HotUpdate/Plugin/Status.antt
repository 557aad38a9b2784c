-- ===== src/HotUpdate/Plugin/Status.antt =====
-- What the status of the hot-update plugin says in the course of Start.
use kidecar.Base.{◌≡◌, ◌≢◌, String, ◌⊎◌, List}
use kidecar.Base.Outcome.{Outcome, ok}
use kidecar.Base.Exec.{Exec}
use kidecar.HotUpdate.State.{HttpRequest, Services}
use kidecar.HotUpdate.Plugin.{Filled, Plugin, status, set_up, register, serve, start}

-- net/http: "ListenAndServe always returns a non-nil error."
pub record ListenLaws {W F : Type 0} (lib : Services W F) : Type 0 where
  pub fails : (address : String) (w : W) → (lib.host.listen_and_serve address w).0 ≢ ok tt

module _ {W F : Type 0} (lib : Services W F) where
  -- The states in which Start, called in the state `h`, may be seen: before it, behind the reload, with
  -- the handler registered, behind some requests, and when it has returned.
  pub data During (h : Filled W) : Filled W → Type 0 where
    called : During h h
    restored : During h ((set_up lib h).1)
    registered : During h ((register lib (set_up lib h).1).1)
    served : (rs : List HttpRequest) → During h ((serve lib rs (register lib (set_up lib h).1).1).1)
    returned : (rs : List HttpRequest) → During h ((start lib rs h).1)

  IsQuiet : Filled W → Type 0
  IsQuiet h = (h.status.status ≡ "") ⊎ (h.status.status ≡ "Stopped")

  IsBlank : Filled W → Type 0
  IsBlank h = h.status.status ≡ ""
