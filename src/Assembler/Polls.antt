-- ===== src/Assembler/Polls.antt =====
-- PluginStatus, updatePluginStatus, isPluginRunning and RemovePlugin of pkg/assembler/mgr.go.
pub mod Removed
use Prim.Native.String.{◌++◌ as str_append}
use kidecar.Base.{
  ◌≡◌, ℕ, zero, suc, String, Bool, true, false, ◌⊎◌, inl, inr, Option, none, some, List, [], ◌∷◌,
  map, str_eq, ltb, if◌then◌else◌,
}
use kidecar.Base.Maps.{Entries, lookup, insert, without}
use kidecar.Base.Outcome.{Err, Outcome, ok, err, msg, and_then, or_wrapped, nil_pointer, explicit}
use kidecar.Base.Exec.{
  Exec, pure, fail, crash, lift, gets, modify, wrapping, masking, attempt, ◌>>=◌, ◌>>◌,
}
use kidecar.Api.{Binary}
use kidecar.Api.Sidecar.{PluginConfig, SidecarConfig, PluginStatus}
use kidecar.Assembler.State.{Plugins, Files, Sidecar, present, on_plugins}

pub plugin_not_found : String → String
plugin_not_found name = str_append "plugin " (str_append name " not found")

unfoldable pub says_running : Err ⊎ PluginStatus → Bool
says_running (inl e) = false
says_running (inr t) = t.running

module _ {P H J C M : Type 0} (plugins : Plugins P H C M) where
  unfoldable pub keep_status : String → PluginStatus → Exec (Sidecar P H J M) PluginStatus
  keep_status name t = do
    modify (λ s. record s { plugin_statuses = insert name t s.plugin_statuses })
    pure t

  unfoldable pub ask_found : String → H → Exec (Sidecar P H J M) PluginStatus
  unfolding on_plugins keep_status
  ask_found name h =
      masking (str_append "get plugin " (str_append name " status failed"))
        (on_plugins (plugins.status h))
      >>= keep_status name

  unfoldable pub update_plugin_status : String → Exec (Sidecar P H J M) PluginStatus
  unfolding present plugin_not_found ask_found
  update_plugin_status name = do
    h ← (λ s. lift (present (plugin_not_found name) (lookup name s.plugins)) s)
    ask_found name h

  unfoldable pub or_poll : String → Option PluginStatus → Exec (Sidecar P H J M) PluginStatus
  unfolding update_plugin_status
  or_poll name (some t) = pure t
  or_poll name none = update_plugin_status name

  unfoldable pub plugin_status : String → Exec (Sidecar P H J M) PluginStatus
  unfolding or_poll
  plugin_status name s = or_poll name (lookup name s.plugin_statuses) s

  drop_plugin : String → Exec (Sidecar P H J M) (Unit {0})
  drop_plugin name = modify (λ s. record s { plugins = without name s.plugins })

  stop_found : String → H → Exec (Sidecar P H J M) (Unit {0})
  unfolding on_plugins drop_plugin
  stop_found name h =
      masking (str_append "stop plugin " (str_append name " failed")) (on_plugins (plugins.stop h))
      >> drop_plugin name

  unfoldable pub remove_plugin : String → Exec (Sidecar P H J M) (Unit {0})
  unfolding present plugin_not_found stop_found
  remove_plugin name = do
    h ← (λ s. lift (present (plugin_not_found name) (lookup name s.plugins)) s)
    stop_found name h

  -- isPluginRunning
  unfoldable pub is_plugin_running : String → Exec (Sidecar P H J M) Bool
  unfolding plugin_status says_running
  is_plugin_running name = do r ← attempt (plugin_status name); pure (says_running r)

  -- The goroutine of pollPluginStatus, for a number of ticks; an error is dropped.
  poll_plugin_status : String → ℕ → Exec (Sidecar P H J M) (Unit {0})
  unfolding update_plugin_status
  poll_plugin_status name zero = pure tt
  poll_plugin_status name (suc n) = attempt (update_plugin_status name) >> poll_plugin_status name n
