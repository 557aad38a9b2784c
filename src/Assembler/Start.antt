-- ===== src/Assembler/Start.antt =====
-- Start and Stop of pkg/assembler/mgr.go.
pub mod Launched
pub mod Ready
use kidecar.Base.{String, Bool, Option, List, [], ◌∷◌, map, if◌then◌else◌}
use kidecar.Base.Maps.{Entries}
use kidecar.Base.Outcome.{Err, ok, explicit}
use kidecar.Base.Exec.{Exec, pure, crash, gets, modify, masking, ◌>>=◌, ◌>>◌}
use kidecar.Assembler.State.{Plugins, Sidecar}
use kidecar.Assembler.Polls.{is_plugin_running}

-- What Start has done when it returns: the plugins whose Start runs, the names that are polled,
-- whether the web server runs, and the error, if it is one, that a plugin has sent.
pub record Running (H : Type 0) : Type 0 where
  pub launched : List H
  pub polled : List String
  pub serving : Bool
  pub received : Option Err

abbrev pub values : {A : Type 0} → Entries A → List A
values m = map (λ e. e.1) m

module _ {P H J C M : Type 0} (plugins : Plugins P H C M) where
  -- startAllPlugins: the plugins whose Start is launched. `others` is what the goroutines that are
  -- there already do before a plugin is asked.
  unfoldable pub start_each : (H → P → P) → List H → Exec (Sidecar P H J M) (List H)
  unfolding is_plugin_running
  start_each others [] = pure []
  start_each others (h ∷ hs) = do
    modify (λ s. record s { world = others h s.world })
    running ← is_plugin_running plugins (plugins.name h)
    rest ← start_each others hs
    pure (if running then rest else h ∷ rest)

  pub start_all_plugins : (H → P → P) → Exec (Sidecar P H J M) (List H)
  unfolding start_each
  start_all_plugins others = do hs ← gets (λ s. values s.plugins); start_each others hs

  -- Start, where some plugin sends on the channel: `await` is what everyone does until then, and what
  -- is sent.
  unfoldable pub start :
      (H → P → P)
      → (Sidecar P H J M → Option Err × Sidecar P H J M)
      → Exec (Sidecar P H J M) (Running H)
  unfolding start_all_plugins
  start others await = do
    hs ← start_all_plugins others
    s ← gets (λ s. s)
    sent ← (λ s'. let (e, t) = await s' in (ok e, t))
    pure (record {
      launched = hs;
      polled = map plugins.name (values s.plugins);
      serving = s.is_start_web_server;
      received = sent;
    })

module _ {P H J M : Type 0} where
  -- Stop ends in StopAllPlugins.
  stop_all_plugins : Exec (Sidecar P H J M) (Unit {0})
  stop_all_plugins = crash (explicit "unimplemented")

  stop : Exec (Sidecar P H J M) (Unit {0})
  unfolding stop_all_plugins
  stop = masking "stop all plugins failed" stop_all_plugins
