-- ===== src/Assembler/BuiltIn/Ready/Starts.antt =====
-- The built-in plugins as the assembler asks for them, from InitPlugins to Start.
use kidecar.Base.{All, ◌≡◌, refl, ◌≢◌, false, sym, subst, ℕ, Option, some, List, []}
use kidecar.Base.Outcome.{ok, panic, Fault}
use kidecar.Api.{Binary}
use kidecar.HttpProbe.Plugin as HttpProbe
use kidecar.HotUpdate.Plugin as HotUpdate
use kidecar.BinaryPlugin.{Commands, BinaryPlugin}
use kidecar.BinaryPlugin as Runner
use kidecar.BinaryPlugin.Runs as Runs
use kidecar.Assembler.Convert.{Json}
use kidecar.Assembler.State.{Sidecar}
use kidecar.Assembler.Ready.{ReadyLaws, IsFit}
use kidecar.Assembler.Add.{init_plugins}
use kidecar.Assembler.Add.Ready.{init_plugins-IsFit}
use kidecar.Assembler.Start.{values, start_all_plugins}
use kidecar.Assembler.Start.Launched.{Launched}
use kidecar.Assembler.Start.Ready.{start_all_plugins-ends}
use kidecar.Assembler.BuiltIn.{
  Handle, http_probe, hot_update, binary, AllPlugins, AnyConfig, built_in, init, status, new_binary,
  nth, put_binary, call_binary, http_init_of, hot_init_of,
}
use kidecar.Assembler.BuiltIn.Ready.{
  IsReady, nth-append, nth-last, http_init-set, hot_init-filled, put_http-ready, put_hot-ready,
  IsReader, init_binary-fails, kept_http, kept_hot, call_binary-ready,
}

init-reads :
    {V Pid : Type 0} (commands : Commands V Pid)
    → IsReader (Runner.init commands Runner.other_config)
unfolding Runner.init
init-reads commands b = refl

module _ {W V Pid : Type 0} (commands : Commands V Pid) where
  binary_status-answers :
      (n : ℕ) (w : AllPlugins W V Pid) (b : BinaryPlugin V Pid) (p : Fault)
      → b.locked ≡ false
      → (call_binary commands (Runner.status commands) n (some b) w).0 ≢ panic p
  unfolding call_binary put_binary
  binary_status-answers n w b p free =
      Runs.status-answers commands (record b { host = w.host }) p free

  status-answers :
      (h : Handle) (w : AllPlugins W V Pid) (p : Fault)
      → IsReady h w
      → (status commands h w).0 ≢ panic p
  unfolding status IsReady HttpProbe.status HotUpdate.status
  status-answers http_probe w p (t, e) h = cc (rw e at h)
  status-answers hot_update w p (f, e) h = cc (rw e at h)
  status-answers (binary n) w p (b, e, free) h = binary_status-answers n w b p free (rw e at h)

  new_binary-keeps :
      (c : Binary) (w : AllPlugins W V Pid) (g : Handle)
      → IsReady g w
      → IsReady g (new_binary commands c w).1
  unfolding new_binary IsReady
  new_binary-keeps c w http_probe r = r
  new_binary-keeps c w hot_update r = r
  new_binary-keeps c w (binary n) (b, r, free) = (b, nth-append n w.binaries _ b r, free)

  new_binary-ready :
      (c : Binary) (w : AllPlugins W V Pid)
      → IsReady (new_binary commands c w).0 (new_binary commands c w).1
  unfolding new_binary IsReady Runner.new_plugin
  new_binary-ready c w = (_, nth-last w.binaries (Runner.new_plugin commands c w.host), refl)

  init-ready :
      {M : Type 0} (h : Handle) (c : AnyConfig) (m : Option M) (w w' : AllPlugins W V Pid)
      → init commands h c m w ≡ (ok tt, w')
      → IsReady h w'
  unfolding init
  init-ready http_probe c m w w' e =
      put_http-ready commands w w' _ (http_init-set (http_init_of c) w.http) e
  init-ready hot_update c m w w' e =
      put_hot-ready commands w w' _ (hot_init-filled (hot_init_of c) w.hot) e
  init-ready (binary n) c m w w' e = absurd (init_binary-fails commands n (nth n w.binaries) w w' e)

  init-keeps :
      {M : Type 0} (h : Handle) (c : AnyConfig) (m : Option M) (w : AllPlugins W V Pid) (g : Handle)
      → IsReady g w
      → IsReady g (init commands h c m w).1
  unfolding init
  init-keeps http_probe c m w g r =
      kept_http commands w _ g (http_init-set (http_init_of c) w.http) r
  init-keeps hot_update c m w g r =
      kept_hot commands w _ g (hot_init-filled (hot_init_of c) w.hot) r
  init-keeps (binary n) c m w g r =
      call_binary-ready commands (Runner.init commands Runner.other_config) n (nth n w.binaries) w g
        (init-reads commands) refl r

  status-keeps :
      (h : Handle) (w : AllPlugins W V Pid) (g : Handle)
      → IsReady g w
      → IsReady g (status commands h w).1
  unfolding status
  status-keeps http_probe w g r = r
  status-keeps hot_update w g r = r
  status-keeps (binary n) w g r =
      call_binary-ready commands (Runner.status commands) n (nth n w.binaries) w g
        (Runs.status-reads commands) refl r

  ready_laws : {M : Type 0} → ReadyLaws (built_in {W = W} commands {M = M}) IsReady
  ready_laws {M} = record {
    init_readies = init-ready;
    init_keeps = init-keeps;
    new_readies = new_binary-ready;
    new_keeps = new_binary-keeps;
    status_keeps = status-keeps;
    status_answers = status-answers;
  }

  -- With the plugins of the repository: if InitPlugins of a sidecar that holds no plugins yet ends
  -- without an error, then startAllPlugins comes to its end, with neither a panic nor an error, and has
  -- launched exactly those of the plugins that their status does not report as running. What the
  -- plugins do in the meantime must not take a status pointer away, nor a binary plugin, and must not
  -- leave a Start of a binary plugin waiting with its lock, as one does whose command does not start.
  pub start_all_plugins-init_plugins :
      {J M : Type 0} (json : Json J AnyConfig)
      (others : Handle → AllPlugins W V Pid → AllPlugins W V Pid)
      (s s' : Sidecar (AllPlugins W V Pid) Handle J M)
      → ((h g : Handle) (w : AllPlugins W V Pid) → IsReady g w → IsReady g (others h w))
      → s.plugins ≡ []
      → init_plugins (built_in commands) json s ≡ (ok tt, s')
      → (l : List Handle) × (s'' : Sidecar (AllPlugins W V Pid) Handle J M) × (start_all_plugins
            (built_in commands)
            others
            s'
          ≡ (ok l, s''))
        × Launched (built_in commands) s'' (values s'.plugins) l
  start_all_plugins-init_plugins json others s s' keep empty e =
      let fresh : IsFit IsReady s = subst (λ m. All (λ g. IsReady g.1 s.world) m) (sym empty) tt in
      start_all_plugins-ends (built_in commands) IsReady ready_laws others keep s'
        (init_plugins-IsFit (built_in commands) json IsReady ready_laws s s' fresh e)
