-- ===== src/Assembler/Start/Launched.antt =====
-- Which plugins startAllPlugins launches.
use kidecar.Base.{
  ◌≡◌, refl, sym, subst, ◌⊎◌, inl, inr, ◌∙◌, ap, String, Bool, true, false, Option, none, some,
  List, [], ◌∷◌, eq_iff, eq_refl, arith, if◌then◌else◌,
}
use kidecar.Base.Maps.{Entries, insert, lookup, lookup-insert}
use kidecar.Base.Outcome.{Err, Fault, Outcome, ok, err, panic}
use kidecar.Base.Exec.{continue, caught_end, mask_end, pure}
use kidecar.Api.Sidecar.{PluginStatus}
use kidecar.Assembler.State.{Plugins, Sidecar, present, on_plugins}
use kidecar.Assembler.Polls.{
  plugin_not_found, says_running, keep_status, ask_found, or_poll, update_plugin_status,
  plugin_status, is_plugin_running,
}
use kidecar.Assembler.Start.{values, start_each, start_all_plugins}

module _ {P H C M : Type 0} (plugins : Plugins P H C M) where
  -- The Status of some plugin ended in the panic, or did not come back.
  abbrev pub HasPanicked : Fault → Type 0
  HasPanicked p = (h : H) × (w : P) × ((plugins.status h w).0 ≡ panic p)

  -- There is no plugin under the name, or its Status has failed.
  abbrev pub NoAnswer : String → Entries H → Type 0
  NoAnswer name m =
      (lookup name m ≡ none)
      ⊎ ((h : H) × (lookup name m ≡ some h)
          × (w : P) × (f : Err) × ((plugins.status h w).0 ≡ err f))

module _ {P H J C M : Type 0} (plugins : Plugins P H C M) where
  -- The status that is kept under the name says that the plugin is running.
  abbrev pub IsReported : String → Sidecar P H J M → Type 0
  IsReported name s =
      (t : PluginStatus) × (lookup name s.plugin_statuses ≡ some t) × (t.running ≡ true)

  -- It says that the plugin is not running, or there was no status to keep.
  abbrev pub IsDown : String → Sidecar P H J M → Type 0
  IsDown name s =
      ((t : PluginStatus) × (lookup name s.plugin_statuses ≡ some t) × (t.running ≡ false))
      ⊎ NoAnswer plugins name s.plugins

  -- Of the plugins in their order, each is launched if it is down, or left out since it is reported to
  -- run.
  pub data Launched (s : Sidecar P H J M) : List H → List H → Type 0 where
    no_more : Launched s [] []
    launch :
        {h : H} {hs l : List H}
        → IsDown (plugins.name h) s
        → Launched s hs l
        → Launched s (h ∷ hs) (h ∷ l)
    leave_out :
        {h : H} {hs l : List H}
        → IsReported (plugins.name h) s
        → Launched s hs l
        → Launched s (h ∷ hs) l

  Keeps : Sidecar P H J M → Sidecar P H J M → Type 0
  Keeps s s' =
      (s'.plugins ≡ s.plugins)
      × ((k : String) (t : PluginStatus)
          → lookup k s.plugin_statuses ≡ some t
          → lookup k s'.plugin_statuses ≡ some t)

  Keeps-trans : (s s' s'' : Sidecar P H J M) → Keeps s s' → Keeps s' s'' → Keeps s s''
  unfolding Keeps
  Keeps-trans s s' s'' (p, k) (q, l) = (q ∙ p, λ n t e. l n t (k n t e))

  IsReported-Keeps :
      (s s' : Sidecar P H J M) (name : String) → Keeps s s' → IsReported name s → IsReported name s'
  unfolding Keeps
  IsReported-Keeps s s' name (p, k) (t, e, r) = (t, k name t e, r)

  IsDown-Keeps :
      (s s' : Sidecar P H J M) (name : String) → Keeps s s' → IsDown name s → IsDown name s'
  unfolding Keeps
  IsDown-Keeps s s' name (p, k) (inl (t, e, r)) = inl (t, k name t e, r)
  IsDown-Keeps s s' name (p, k) (inr n) = inr (subst (NoAnswer plugins name) (sym p) n)

  Tells : String → Bool → Sidecar P H J M → Type 0
  Tells name true s = IsReported name s
  Tells name false s = IsDown name s

  tells :
      (name : String) (t : PluginStatus) (s : Sidecar P H J M) (b : Bool)
      → t.running ≡ b
      → lookup name s.plugin_statuses ≡ some t
      → Tells name b s
  unfolding Tells
  tells name t s true r e = (t, e, r)
  tells name t s false r e = inl (t, e, r)

  -- What asking whether the plugin of the name runs may end in.
  Asked : String → Sidecar P H J M → Outcome Bool × Sidecar P H J M → Type 0
  Asked name s (ok b, s') = Tells name b s' × Keeps s s'
  Asked name s (err e, s') = ⊥
  Asked name s (panic p, s') = HasPanicked plugins p

  answer : Outcome PluginStatus × Sidecar P H J M → Outcome Bool × Sidecar P H J M
  answer x = continue (caught_end x) (λ r. pure (says_running r))

  kept :
      (name : String) (h : H) (s : Sidecar P H J M) (x : Outcome PluginStatus × P) (text : String)
      → lookup name s.plugin_statuses ≡ none
      → lookup name s.plugins ≡ some h
      → plugins.status h s.world ≡ x
      → Asked name s (
          answer
            (continue (mask_end text (x.0, record s { world = x.1 })) (keep_status plugins name)))
  unfolding Asked answer keep_status Keeps Tells says_running
  kept name h s (ok t, w) text fresh held e =
      let now : lookup name (insert name t s.plugin_statuses) ≡ some t =
        lookup-insert name name t s.plugin_statuses
        ∙ ap (λ b. if b then some t else lookup name s.plugin_statuses) (eq_refl name) in
      (
        tells name t (record s { world = w; plugin_statuses = insert name t s.plugin_statuses })
            t.running refl now,
        (
          refl,
          λ k u l.
              lookup-insert name k t s.plugin_statuses ∙ ground (arith, eq_iff name k, fresh, l),
        ),
      )
  kept name h s (err f, w) text fresh held e =
      (inr (inr (h, held, s.world, f, ap (λ x. x.0) e)), (refl, λ k t l. l))
  kept name h s (panic p, w) text fresh held e = (h, s.world, ap (λ x. x.0) e)

  polled :
      (name : String) (s : Sidecar P H J M) (o : Option H)
      → lookup name s.plugin_statuses ≡ none
      → lookup name s.plugins ≡ o
      → Asked name s
          (answer (continue (present (plugin_not_found name) o, s) (ask_found plugins name)))
  unfolding Asked answer present ask_found on_plugins Keeps Tells says_running
  polled name s none fresh held = (inr (inl held), (refl, λ k t l. l))
  polled name s (some h) fresh held = kept name h s (plugins.status h s.world) _ fresh held refl

  asked :
      (name : String) (s : Sidecar P H J M) (o : Option PluginStatus)
      → lookup name s.plugin_statuses ≡ o
      → Asked name s (answer (or_poll plugins name o s))
  unfolding Asked answer or_poll update_plugin_status Keeps Tells says_running
  asked name s (some t) e = (tells name t s t.running refl e, (refl, λ k u l. l))
  asked name s none e = polled name s (lookup name s.plugins) e refl

  is_plugin_running-Asked :
      (name : String) (s : Sidecar P H J M) → Asked name s (is_plugin_running plugins name s)
  unfolding is_plugin_running plugin_status answer
  is_plugin_running-Asked name s = asked name s (lookup name s.plugin_statuses) refl

  Swept : List H → Sidecar P H J M → Outcome (List H) × Sidecar P H J M → Type 0
  Swept hs s (ok l, s') = Launched s' hs l × Keeps s s'
  Swept hs s (err e, s') = ⊥
  Swept hs s (panic p, s') = HasPanicked plugins p

  -- What is left when the others have been asked.
  after_rest :
      (h : H) (hs : List H) (b : Bool) (s s1 : Sidecar P H J M)
      (x : Outcome (List H) × Sidecar P H J M)
      → Tells (plugins.name h) b s1
      → Keeps s s1
      → Swept hs s1 x
      → Swept (h ∷ hs) s (continue x (λ rest. pure (if b then rest else h ∷ rest)))
  unfolding Swept Tells
  after_rest h hs true s s1 (ok l, s2) r k (launched, k2) =
      (leave_out (IsReported-Keeps s1 s2 (plugins.name h) k2 r) launched, Keeps-trans s s1 s2 k k2)
  after_rest h hs false s s1 (ok l, s2) r k (launched, k2) =
      (launch (IsDown-Keeps s1 s2 (plugins.name h) k2 r) launched, Keeps-trans s s1 s2 k k2)
  after_rest h hs b s s1 (err e, s2) r k c = c
  after_rest h hs b s s1 (panic p, s2) r k c = c

  after_answer :
      (others : H → P → P) (h : H) (hs : List H) (s s0 : Sidecar P H J M)
      (x : Outcome Bool × Sidecar P H J M)
      → Keeps s s0
      → Asked (plugins.name h) s0 x
      → ((s1 : Sidecar P H J M) → Swept hs s1 (start_each plugins others hs s1))
      → Swept (h ∷ hs) s (
          continue x (λ running s1.
            continue
              (start_each plugins others hs s1)
              (λ rest. pure (if running then rest else h ∷ rest))))
  unfolding Asked Swept
  after_answer others h hs s s0 (ok b, s1) k0 (r, k) rest =
      after_rest h hs b s s1 (start_each plugins others hs s1) r (Keeps-trans s s0 s1 k0 k)
        (rest s1)
  after_answer others h hs s s0 (err e, s1) k0 a rest = a
  after_answer others h hs s s0 (panic p, s1) k0 a rest = a

  start_each-Swept :
      (others : H → P → P) (hs : List H) (s : Sidecar P H J M)
      → Swept hs s (start_each plugins others hs s)
  unfolding start_each Swept Keeps
  start_each-Swept others [] s = (no_more, (refl, λ k t l. l))
  start_each-Swept others (h ∷ hs) s =
      let s0 : Sidecar P H J M = record s { world = others h s.world } in
      after_answer others h hs s s0 (is_plugin_running plugins (plugins.name h) s0)
        (refl, λ k t l. l) (is_plugin_running-Asked (plugins.name h) s0)
        (start_each-Swept others hs)

  -- How startAllPlugins ends.
  abbrev pub IsStarted : List H → Outcome (List H) × Sidecar P H J M → Type 0
  IsStarted hs (ok l, s') = Launched s' hs l
  IsStarted hs (err e, s') = ⊥
  IsStarted hs (panic p, s') = HasPanicked plugins p

  started :
      (hs : List H) (s : Sidecar P H J M) (x : Outcome (List H) × Sidecar P H J M)
      → Swept hs s x
      → IsStarted hs x
  unfolding Swept
  started hs s (ok l, s') c = c.0
  started hs s (err e, s') c = c
  started hs s (panic p, s') c = c

  -- Whatever the goroutines do in between, startAllPlugins ends without an error: an error of a Status
  -- counts as not running. It goes through the plugins in the order of the map. It leaves out one if
  -- the kept status of its name says that it runs, and launches it, once, if that status says that it
  -- does not, or if no plugin has its name or the Status of that plugin fails. Only a Status that
  -- panics or does not come back keeps it from the end.
  pub start_all_plugins-IsStarted :
      (others : H → P → P) (s : Sidecar P H J M)
      → IsStarted (values s.plugins) (start_all_plugins plugins others s)
  unfolding start_all_plugins
  start_all_plugins-IsStarted others s =
      started (values s.plugins) s (start_each plugins others (values s.plugins) s)
        (start_each-Swept others (values s.plugins) s)
