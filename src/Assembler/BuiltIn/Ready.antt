-- ===== src/Assembler/BuiltIn/Ready.antt =====
-- The three plugins, from InitPlugins to Start.
pub mod Starts
use kidecar.Base.{
  ◌∙◌, All, ◌≡◌, ◌≢◌, refl, sym, ap, subst, ℕ, zero, suc, Option, none, some, List, [], ◌∷◌, ◌++◌,
  false, length,
}
use kidecar.Base.Outcome.{Outcome, ok, err, panic, Fault, and_then}
use kidecar.Base.Exec.{Exec}
use kidecar.Api.{Binary}
use kidecar.Api.Sidecar.{PluginStatus}
use kidecar.HttpProbe.Plugin.{HttpProber}
use kidecar.HttpProbe.Plugin as HttpProbe
use kidecar.HttpProbe.Health.{HttpProbeStatus, new_status}
use kidecar.HotUpdate.Plugin as HotUpdate
use kidecar.BinaryPlugin.{Commands, BinaryPlugin}
use kidecar.BinaryPlugin as Runner
use kidecar.Assembler.Convert.{Json}
use kidecar.Assembler.State.{Sidecar}
use kidecar.Assembler.Ready.{ReadyLaws, IsFit}
use kidecar.Assembler.Add.{init_plugins}
use kidecar.Assembler.Add.Ready.{init_plugins-IsFit}
use kidecar.Assembler.Start.{values, start_all_plugins}
use kidecar.Assembler.Start.Launched.{Launched}
use kidecar.Assembler.Start.Ready.{start_all_plugins-ends}
use kidecar.Assembler.BuiltIn.{
  Handle, http_probe, hot_update, binary, AllPlugins, AnyConfig, built_in, init, status, new_binary,
  nth, set_nth, put_http, put_hot, put_binary, call_binary, http_init_of, hot_init_of,
}

nth-append :
    {A : Type 0} (n : ℕ) (xs ys : List A) (a : A) → nth n xs ≡ some a → nth n (xs ++ ys) ≡ some a
unfolding nth
nth-append n [] ys a h = cc
nth-append zero (x ∷ xs) ys a h = h
nth-append (suc n) (x ∷ xs) ys a h = nth-append n xs ys a h

nth-last : {A : Type 0} (xs : List A) (a : A) → nth (length xs) (xs ++ (a ∷ [])) ≡ some a
unfolding nth
nth-last [] a = refl
nth-last (x ∷ xs) a = nth-last xs a

module _ {A : Type 0} (Q : A → Type 0) where
  nth-set_nth :
      (n k : ℕ) (c : A) (xs : List A) (a : A)
      → ((b : A) → nth n xs ≡ some b → Q b → Q c)
      → nth k xs ≡ some a
      → Q a
      → (b : A) × (nth k (set_nth n c xs) ≡ some b) × Q b
  unfolding nth set_nth
  nth-set_nth n k c [] a q h p = (a, h, p)
  nth-set_nth zero zero c (x ∷ xs) a q h p = (c, refl, q a h p)
  nth-set_nth zero (suc k) c (x ∷ xs) a q h p = (a, h, p)
  nth-set_nth (suc n) zero c (x ∷ xs) a q h p = (a, h, p)
  nth-set_nth (suc n) (suc k) c (x ∷ xs) a q h p = nth-set_nth n k c xs a q h p

http_init-set :
    (c : HttpProbe.InitConfig) (h h' : HttpProber)
    → HttpProbe.init c h ≡ ok h'
    → (t : HttpProbeStatus) × (h'.status ≡ some t)
unfolding HttpProbe.init
http_init-set HttpProbe.other_config h h' e = cc
http_init-set (HttpProbe.http_probe_config none) h h' e = cc
http_init-set (HttpProbe.http_probe_config (some c)) h h' e = (new_status, cc)

module _ {W : Type 0} where
  checked-filled :
      (f : HotUpdate.Filled W) (h' : HotUpdate.Plugin W) (x : Outcome (Unit {0}))
      → and_then x (λ valid. ok (HotUpdate.ready f)) ≡ ok h'
      → (f : HotUpdate.Filled W) × (h' ≡ HotUpdate.ready f)
  checked-filled f h' (ok u) e = (f, cc)
  checked-filled f h' (err g) e = cc
  checked-filled f h' (panic p) e = cc

  hot_init-filled :
      (c : HotUpdate.InitConfig) (h h' : HotUpdate.Plugin W)
      → HotUpdate.init c h ≡ ok h'
      → (f : HotUpdate.Filled W) × (h' ≡ HotUpdate.ready f)
  unfolding HotUpdate.init
  hot_init-filled HotUpdate.other_config h h' e = cc
  hot_init-filled (HotUpdate.hot_update_config none) h h' e = cc
  hot_init-filled (HotUpdate.hot_update_config (some c)) h h' e = checked-filled _ h' _ e

-- A method that leaves the plugin as it is.
abbrev pub IsReader : {V Pid A : Type 0} → Exec (BinaryPlugin V Pid) A → Type 0
IsReader {V} {Pid} m = (b : BinaryPlugin V Pid) → (m b).1 ≡ b

module _ {W V Pid : Type 0} where
  -- The plugin has its status pointer, or, for a binary plugin, is one of those that were made and no
  -- Start of it waits with the lock.
  unfoldable pub IsReady : Handle → AllPlugins W V Pid → Type 0
  unfolding nth
  IsReady http_probe w = (t : HttpProbeStatus) × (w.http.status ≡ some t)
  IsReady hot_update w = (f : HotUpdate.Filled W) × (w.hot ≡ HotUpdate.ready f)
  IsReady (binary n) w = (b : BinaryPlugin V Pid) × (nth n w.binaries ≡ some b) × (b.locked ≡ false)

module _ {W V Pid : Type 0} (commands : Commands V Pid) where
  put_http-ready :
      (w w' : AllPlugins W V Pid) (x : Outcome HttpProber)
      → ((h : HttpProber) → x ≡ ok h → (t : HttpProbeStatus) × (h.status ≡ some t))
      → put_http commands w x ≡ (ok tt, w')
      → IsReady http_probe w'
  unfolding put_http IsReady
  put_http-ready w w' (ok h) set e = let (t, q) = set h refl in (t, cc)
  put_http-ready w w' (err f) set e = cc
  put_http-ready w w' (panic p) set e = cc

  put_hot-ready :
      (w w' : AllPlugins W V Pid) (x : Outcome (HotUpdate.Plugin W))
      → ((h : HotUpdate.Plugin W) → x ≡ ok h → (f : HotUpdate.Filled W) × (h ≡ HotUpdate.ready f))
      → put_hot commands w x ≡ (ok tt, w')
      → IsReady hot_update w'
  unfolding put_hot IsReady
  put_hot-ready w w' (ok h) set e = let (f, q) = set h refl in (f, cc)
  put_hot-ready w w' (err f) set e = cc
  put_hot-ready w w' (panic p) set e = cc

  put_binary-ready :
      {A : Type 0} (n : ℕ) (w : AllPlugins W V Pid) (x : Outcome A × BinaryPlugin V Pid)
      (g : Handle)
      → ((b : BinaryPlugin V Pid)
          → nth n w.binaries ≡ some b
          → b.locked ≡ false
          → x.1.locked ≡ false)
      → IsReady g w
      → IsReady g (put_binary commands n w x).1
  unfolding put_binary IsReady
  put_binary-ready n w (r, b) http_probe free h = h
  put_binary-ready n w (r, b) hot_update free h = h
  put_binary-ready n w (r, b) (binary k) free (a, h, q) =
      nth-set_nth (λ (b : BinaryPlugin V Pid). b.locked ≡ false) n k b w.binaries a free h q

  call_binary-ready :
      {A : Type 0} (m : Exec (BinaryPlugin V Pid) A) (n : ℕ) (o : Option (BinaryPlugin V Pid))
      (w : AllPlugins W V Pid) (g : Handle)
      → IsReader m
      → nth n w.binaries ≡ o
      → IsReady g w
      → IsReady g (call_binary commands m n o w).1
  unfolding call_binary
  call_binary-ready m n none w g reads e h = h
  call_binary-ready m n (some b) w g reads e h =
      put_binary-ready n w (m (record b { host = w.host })) g
        (λ a held free.
          let same : a ≡ b = cc (held, e) in
          ap (λ c. c.locked) (reads (record b { host = w.host }))
          ∙ ap (λ c. c.locked) (sym same)
          ∙ free)
        h

  -- Init of a binary plugin does not succeed with what the assembler gives to it.
  init_binary-fails :
      (n : ℕ) (o : Option (BinaryPlugin V Pid)) (w w' : AllPlugins W V Pid)
      → call_binary commands (Runner.init commands Runner.other_config) n o w ≢ (ok tt, w')
  unfolding call_binary put_binary Runner.init
  init_binary-fails n none w w' e = cc e
  init_binary-fails n (some b) w w' e = cc e

  kept_http :
      (w : AllPlugins W V Pid) (x : Outcome HttpProber) (g : Handle)
      → ((h : HttpProber) → x ≡ ok h → (t : HttpProbeStatus) × (h.status ≡ some t))
      → IsReady g w
      → IsReady g (put_http commands w x).1
  unfolding put_http IsReady
  kept_http w (ok h) http_probe set r = set h refl
  kept_http w (ok h) hot_update set r = r
  kept_http w (ok h) (binary n) set r = r
  kept_http w (err e) g set r = r
  kept_http w (panic p) g set r = r

  kept_hot :
      (w : AllPlugins W V Pid) (x : Outcome (HotUpdate.Plugin W)) (g : Handle)
      → ((h : HotUpdate.Plugin W) → x ≡ ok h → (f : HotUpdate.Filled W) × (h ≡ HotUpdate.ready f))
      → IsReady g w
      → IsReady g (put_hot commands w x).1
  unfolding put_hot IsReady
  kept_hot w (ok h) http_probe set r = r
  kept_hot w (ok h) hot_update set r = set h refl
  kept_hot w (ok h) (binary n) set r = r
  kept_hot w (err e) g set r = r
  kept_hot w (panic p) g set r = r
