-- ===== src/HotUpdate/Plugin.antt =====
-- pkg/plugins/hot_update/plugin.go: Init, Start and Status.
pub mod Status
use kidecar.Base.{
  String, ◌⊎◌, inl, inr, Bool, true, false, Option, none, some, List, [], ◌∷◌, str_eq,
}
use kidecar.Base.Outcome.{Err, Outcome, ok, err, panic, and_then, or_wrapped, msg, nil_pointer}
use kidecar.Base.Exec.{Exec, pure, attempt, modify, ◌>>=◌, ◌>>◌}
use kidecar.Process.{Process}
use kidecar.Api.Sidecar.{PluginStatus}
use kidecar.Store.Metrics.{handle}
use kidecar.Store.Factory.{new_storage_factory}
use kidecar.HotUpdate.Config.{HotUpdateConfig, plugin_name, validate_config}
use kidecar.HotUpdate.State.{HttpRequest, HotUpdate, Services, on_host, on_process}
use kidecar.HotUpdate.Health.{HotUpdateStatus, new_status, set_status, get_status}
use kidecar.HotUpdate.Handler.{hot_update_handle}
use kidecar.HotUpdate.Start.{set_hot_update_config_when_start}

-- What Init fills: the fields that executor.go works on, and what the status pointer points to.
pub record Filled (W : Type 0) : Type 0 where
  pub fields : HotUpdate W
  pub status : HotUpdateStatus

-- The plugin of NewPlugin, whose pointers are nil, with the process that it runs in; or a plugin that
-- Init has filled.
pub data Plugin (W : Type 0) : Type 0 where
  fresh : Process W → Plugin W
  ready : Filled W → Plugin W

-- The `interface{}` of Init.
pub data InitConfig : Type 0 where
  hot_update_config : Option HotUpdateConfig → InitConfig
  other_config : InitConfig

status_of : String → PluginStatus
status_of text = record {
  name = plugin_name;
  version = "";
  running = str_eq text "Running";
  last_checked = "";
  health = text;
  infos = [];
}

module _ {W : Type 0} where
  process : Plugin W → Process W
  process (fresh p) = p
  process (ready h) = h.fields.proc

  filled : HotUpdateConfig → Process W → Filled W
  filled c p = record {
    fields = record {
      config = c;
      factory = new_storage_factory;
      result = record { result = ""; version = ""; url = "" };
      proc = p;
      response = record { codes = []; body = [] };
    };
    status = new_status;
  }

  unfoldable pub init : InitConfig → Plugin W → Outcome (Plugin W)
  unfolding process filled
  init other_config h = err (msg "invalid config type of hot-update")
  init (hot_update_config none) h = panic nil_pointer
  init (hot_update_config (some c)) h =
      and_then (or_wrapped "invalid config of hot-update, err" (validate_config c))
        (λ valid. ok (ready (filled c (process h))))

  -- Status reads through the status pointer.
  unfoldable pub status : Plugin W → Outcome PluginStatus
  unfolding status_of
  status (fresh p) = panic nil_pointer
  status (ready h) = ok (status_of (get_status h.status))

  put_status : String → Exec (Filled W) (Unit {0})
  put_status text = modify (λ h. record h { status = set_status text h.status })

  on_fields : {A : Type 0} → Exec (HotUpdate W) A → Exec (Filled W) A
  on_fields {A} m h = put_back (m h.fields)
    where
      put_back : Outcome A × HotUpdate W → Outcome A × Filled W
      put_back (r, f) = (r, record h { fields = f })

module _ {W F : Type 0} (lib : Services W F) where
  unfoldable pub set_up : Exec (Filled W) (Unit {0})
  unfolding on_fields set_hot_update_config_when_start
  set_up = on_fields (set_hot_update_config_when_start lib)

  unfoldable pub register : Exec (Filled W) (Unit {0})
  unfolding on_fields on_process handle
  register = on_fields (on_process (handle "/hot-update"))

  -- The requests that are handled while ListenAndServe runs, one after the other.
  pub serve : List HttpRequest → Exec (Filled W) (Unit {0})
  unfolding on_fields hot_update_handle
  serve [] = pure tt
  serve (r ∷ rs) = on_fields (hot_update_handle lib r) >> serve rs

  -- ListenAndServe has returned. The answer is what Start sends on errCh.
  ended : Err ⊎ Unit {0} → Exec (Filled W) (Option Err)
  unfolding put_status
  ended (inl e) = do put_status "Stopped"; pure (some e)
  ended (inr u) = do put_status "Running"; pure none

  listen : Exec (Filled W) (Unit {0})
  unfolding on_fields on_host
  listen = on_fields (on_host (lib.host.listen_and_serve ":5000"))

  begin : List HttpRequest → Err ⊎ Unit {0} → Exec (Filled W) (Option Err)
  unfolding put_status register serve listen ended
  begin rs (inl e) = do put_status "Stopped"; pure (some e)
  begin rs (inr u) = do register; serve rs; r ← attempt listen; ended r

  -- Start
  pub start : List HttpRequest → Exec (Filled W) (Option Err)
  unfolding set_up begin
  start rs = do r ← attempt set_up; begin rs r
