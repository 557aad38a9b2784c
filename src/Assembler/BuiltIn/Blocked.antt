-- ===== src/Assembler/BuiltIn/Blocked.antt =====
-- startAllPlugins of a sidecar with several binary plugins.
use kidecar.Base.{String, ◌≡◌, ap, ◌∙◌, ℕ, Option, none, some, List, ◌∷◌, true}
use kidecar.Base.Maps.{lookup}
use kidecar.Base.Outcome.{Fault, Outcome, ok, err, panic, blocked}
use kidecar.Base.Exec.{Exec, continue, caught_end, mask_end, pure}
use kidecar.Api.Sidecar.{PluginStatus}
use kidecar.BinaryPlugin.{Commands, BinaryPlugin}
use kidecar.BinaryPlugin as Runner
use kidecar.BinaryPlugin.Runs as Runs
use kidecar.Assembler.State.{Plugins, Sidecar, present, on_plugins}
use kidecar.Assembler.Polls.{
  keep_status, says_running, plugin_status, or_poll, update_plugin_status, ask_found,
  is_plugin_running,
}
use kidecar.Assembler.Start.{start_each}
use kidecar.Assembler.BuiltIn.{
  Handle, binary, AllPlugins, name, status, built_in, nth, put_binary, call_binary,
}

module _ {P H J C M : Type 0} (plugins : Plugins P H C M) (p : Fault) where
  -- What is left of isPluginRunning behind a Status that ended so.
  no_answer :
      (name text : String) (s : Sidecar P H J M) (x : Outcome PluginStatus × P)
      → x.0 ≡ panic p
      → (continue
          (caught_end
            (continue (mask_end text (x.0, record s { world = x.1 })) (keep_status plugins name)))
          (λ r. pure (says_running r))).0
        ≡ panic p
  unfolding keep_status
  no_answer name text s (ok t, w) e = cc e
  no_answer name text s (err f, w) e = cc e
  no_answer name text s (panic q, w) e = cc e

  is_plugin_running-panic :
      (name : String) (h : H) (s : Sidecar P H J M)
      → lookup name s.plugin_statuses ≡ none
      → lookup name s.plugins ≡ some h
      → (plugins.status h s.world).0 ≡ panic p
      → (is_plugin_running plugins name s).0 ≡ panic p
  unfolding is_plugin_running plugin_status or_poll update_plugin_status present ask_found
      on_plugins
  is_plugin_running-panic name h s fresh found e =
      rw (fresh, found) (no_answer name _ s (plugins.status h s.world) e)

  not_asked :
      {A B : Type 0} (x : Outcome A × Sidecar P H J M) (f : A → Exec (Sidecar P H J M) B)
      → x.0 ≡ panic p
      → (continue x f).0 ≡ panic p
  not_asked (ok a, s) f e = cc e
  not_asked (err g, s) f e = cc e
  not_asked (panic q, s) f e = cc e

module _ {W V Pid : Type 0} (commands : Commands V Pid) where
  status-blocked :
      (n : ℕ) (b : BinaryPlugin V Pid) (w : AllPlugins W V Pid) (o : Option (BinaryPlugin V Pid))
      → o ≡ some b
      → b.locked ≡ true
      → (call_binary commands (Runner.status commands) n o w).0 ≡ panic blocked
  unfolding call_binary put_binary
  status-blocked n b w none e held = cc e
  status-blocked n b w (some c) e held =
      let same : c ≡ b = cc e in
      Runs.status-blocked commands (record c { host = w.host }) (ap (λ d. d.locked) same ∙ held)

  -- In the loop of startAllPlugins, when a binary plugin is next: if no status is kept under "binary",
  -- and the plugin that is configured as "binary" is one whose Start waits with the lock, then the loop
  -- does not come back; no plugin behind that one is launched, and no receiver of errors is reached.
  pub start_each-blocked :
      {J M : Type 0} (others : Handle → AllPlugins W V Pid → AllPlugins W V Pid) (k n : ℕ)
      (rest : List Handle) (b : BinaryPlugin V Pid) (s : Sidecar (AllPlugins W V Pid) Handle J M)
      → lookup "binary" s.plugin_statuses ≡ none
      → lookup "binary" s.plugins ≡ some (binary n)
      → nth n (others (binary k) s.world).binaries ≡ some b
      → b.locked ≡ true
      → (start_each (built_in commands) others (binary k ∷ rest) s).0 ≡ panic blocked
  unfolding start_each name status
  start_each-blocked others k n rest b s fresh found at held =
      let s0 = record s { world = others (binary k) s.world } in
      let e =
        status-blocked n b (others (binary k) s.world) (nth n (others (binary k) s.world).binaries)
          at held in
      not_asked (built_in commands) blocked (is_plugin_running (built_in commands) "binary" s0) _
        (is_plugin_running-panic (built_in commands) blocked "binary" (binary n) s0 fresh found e)
