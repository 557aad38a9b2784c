-- ===== src/BinaryPlugin/Runs.antt =====
-- What a binary plugin answers in the course of its life.
use kidecar.Base.{
  ◌≡◌, ◌≢◌, sym, refl, ap, ◌∙◌, Bool, Option, none, some, ◌++◌, true, false, if◌then◌else◌,
}
use kidecar.Base.Exec.{Exec}
use kidecar.Base.Outcome.{Fault, Outcome, ok, err, panic, msg, blocked}
use kidecar.Api.{Binary}
use kidecar.Api.Sidecar.{PluginStatus}
use kidecar.BinaryPlugin.{
  Commands, Cmd, BinaryPlugin, InitConfig, binary_config, other_config, waits, new_plugin, init,
  if_free, when_free, start_cmd, delivered, or_unavailable, new_cmd, started, start, put_waited,
  wait_process, wait_cmd, send_wait, put_killed, kill_process, stop_cmd, stop, status,
}

module _ {W Pid : Type 0} (lib : Commands W Pid) where
  -- One of the methods of api.Plugin that change something, or the goroutine that Start left.
  pub data Call : BinaryPlugin W Pid → BinaryPlugin W Pid → Type 0 where
    inits : (c : InitConfig) (b : BinaryPlugin W Pid) → Call b ((init lib c b).1)
    starts : (b : BinaryPlugin W Pid) → Call b ((start lib b).1)
    sends_wait : (b : BinaryPlugin W Pid) → Call b ((send_wait lib b).1)
    delivers : (b : BinaryPlugin W Pid) → Call b (delivered lib b)
    stops : (b : BinaryPlugin W Pid) → Call b ((stop lib b).1)

  -- The states of a plugin that NewPlugin made.
  pub data Life : BinaryPlugin W Pid → Type 0 where
    made : (c : Binary) (w : W) → Life (new_plugin lib c w)
    after : {a b : BinaryPlugin W Pid} → Life a → Call a b → Life b

  IsBlank : BinaryPlugin W Pid → Type 0
  IsBlank b = (b.name ≡ "binary") × (b.status ≡ none)

  init-IsBlank : (c : InitConfig) (b : BinaryPlugin W Pid) → IsBlank b → IsBlank ((init lib c b).1)
  unfolding init IsBlank
  init-IsBlank (binary_config (some c)) b h = h
  init-IsBlank (binary_config none) b h = h
  init-IsBlank other_config b h = h

  if_free-IsBlank :
      {A : Type 0} (held : Bool) (m : Exec (BinaryPlugin W Pid) A) (b : BinaryPlugin W Pid)
      → IsBlank ((m b).1)
      → IsBlank b
      → IsBlank ((if_free lib held m b).1)
  unfolding if_free
  if_free-IsBlank true m b done h = h
  if_free-IsBlank false m b done h = done

  when_free-IsBlank :
      {A : Type 0} (m : Exec (BinaryPlugin W Pid) A) (b : BinaryPlugin W Pid)
      → IsBlank ((m b).1)
      → IsBlank b
      → IsBlank ((when_free lib m b).1)
  unfolding when_free
  when_free-IsBlank m b done h = if_free-IsBlank b.locked m b done h

  pub when_free-free :
      {A : Type 0} (m : Exec (BinaryPlugin W Pid) A) (b : BinaryPlugin W Pid)
      → b.locked ≡ false
      → when_free lib m b ≡ m b
  unfolding when_free if_free
  when_free-free m b free = ap (λ held. if_free lib held m b) free

  if_free-reads :
      {A : Type 0} (held : Bool) (m : Exec (BinaryPlugin W Pid) A) (b : BinaryPlugin W Pid)
      → (m b).1 ≡ b
      → (if_free lib held m b).1 ≡ b
  unfolding if_free
  if_free-reads true m b e = refl
  if_free-reads false m b e = e

  or_unavailable-reads :
      (b : BinaryPlugin W Pid) (o : Option PluginStatus)
      → b.status ≡ o
      → ((or_unavailable lib b).1 ≡ b) × ((p : Fault) → (or_unavailable lib b).0 ≢ panic p)
  unfolding or_unavailable
  or_unavailable-reads b none e = rw e (refl, λ p h. cc h)
  or_unavailable-reads b (some t) e = rw e (refl, λ p h. cc h)

  -- Status leaves the plugin as it is.
  pub status-reads : (b : BinaryPlugin W Pid) → (status lib b).1 ≡ b
  unfolding status when_free
  status-reads b =
      if_free-reads b.locked (or_unavailable lib) b (or_unavailable-reads b b.status refl).0

  -- Status comes back if it finds the lock free.
  pub status-answers :
      (b : BinaryPlugin W Pid) (p : Fault) → b.locked ≡ false → (status lib b).0 ≢ panic p
  unfolding status
  status-answers b p free h =
      (or_unavailable-reads b b.status refl).1 p
        (ap (λ x. x.0) (sym (when_free-free (or_unavailable lib) b free)) ∙ h)

  -- Status does not come back if it finds the lock held.
  pub status-blocked : (b : BinaryPlugin W Pid) → b.locked ≡ true → (status lib b).0 ≡ panic blocked
  unfolding status when_free if_free
  status-blocked b held = ap (λ k. (if_free lib k (or_unavailable lib) b).0) held

  unavailable :
      (held : Bool) (b : BinaryPlugin W Pid)
      → b.status ≡ none
      → if_free lib held (or_unavailable lib) b
        ≡ (if held then panic blocked else err (msg "status not available"), b)
  unfolding if_free or_unavailable
  unavailable true b e = refl
  unavailable false b e =
      ap
        (λ (o : Option PluginStatus). elim o [
          | none ↦ (err (msg "status not available"), b)
          | some s ↦ (ok s, b)
        ])
        e

  started-IsBlank :
      (b : BinaryPlugin W Pid) (c : Cmd Pid) (x : Outcome Pid × W)
      → IsBlank b
      → IsBlank ((started lib b c x).1)
  unfolding started IsBlank
  started-IsBlank b c (ok pid, w) h = h
  started-IsBlank b c (err e, w) h = h
  started-IsBlank b c (panic p, w) h = h

  wait_process-IsBlank :
      (p : Option Pid) (b : BinaryPlugin W Pid) → IsBlank b → IsBlank ((wait_process lib p b).1)
  unfolding wait_process put_waited IsBlank
  wait_process-IsBlank none b h = h
  wait_process-IsBlank (some pid) b h = h

  wait-IsBlank :
      (c : Option (Cmd Pid)) (b : BinaryPlugin W Pid) → IsBlank b → IsBlank ((wait_cmd lib c b).1)
  unfolding wait_cmd
  wait-IsBlank none b h = h
  wait-IsBlank (some c) b h = wait_process-IsBlank c.process b h

  kill_process-IsBlank :
      (p : Option Pid) (b : BinaryPlugin W Pid) → IsBlank b → IsBlank ((kill_process lib p b).1)
  unfolding kill_process put_killed IsBlank
  kill_process-IsBlank none b h = h
  kill_process-IsBlank (some pid) b h = h

  stop-IsBlank :
      (c : Option (Cmd Pid)) (b : BinaryPlugin W Pid) → IsBlank b → IsBlank ((stop_cmd lib c b).1)
  unfolding stop_cmd
  stop-IsBlank none b h = h
  stop-IsBlank (some c) b h = kill_process-IsBlank c.process b h

  life-IsBlank : {b : BinaryPlugin W Pid} → Life b → IsBlank b
  unfolding new_plugin start start_cmd delivered send_wait stop IsBlank
  life-IsBlank (made c w) = (refl, refl)
  life-IsBlank (after l (inits c b)) = init-IsBlank c b (life-IsBlank l)
  life-IsBlank (after l (starts b)) =
      when_free-IsBlank (start_cmd lib) b
        (started-IsBlank b (new_cmd lib b.config) _ (life-IsBlank l)) (life-IsBlank l)
  life-IsBlank (after l (delivers b)) = life-IsBlank l
  life-IsBlank (after l (sends_wait b)) = wait-IsBlank b.cmd b (life-IsBlank l)
  life-IsBlank (after l (stops b)) =
      when_free-IsBlank (λ b. stop_cmd lib b.cmd b) b (stop-IsBlank b.cmd b (life-IsBlank l))
        (life-IsBlank l)

  -- Whatever is called, in whatever order and with whatever end, a binary plugin is named "binary",
  -- and its Status never gives a status: it fails, or, while a Start waits with the lock until its
  -- error is received, does not come back.
  pub status-never :
      (b : BinaryPlugin W Pid)
      → Life b
      → (b.name ≡ "binary")
        × (status lib b ≡ (if b.locked then panic blocked else err (msg "status not available"), b))
  unfolding status when_free IsBlank
  status-never b l = let blank = life-IsBlank l in (blank.0, unavailable b.locked b blank.1)

  -- What Stop does behind a Start that finds the lock free and whose command was started: it kills the process of that command,
  -- and its answer is that of the kill.
  start-stop :
      (b : BinaryPlugin W Pid) (pid : Pid) (w : W)
      → b.locked ≡ false
      → lib.start b.config.path b.config.args (lib.environ ++ b.config.env) b.host ≡ (ok pid, w)
      → ((start lib b).0 ≡ ok waits)
        × ((stop lib (start lib b).1).0 ≡ (lib.kill pid w).0)
        × ((stop lib (start lib b).1).1.host ≡ (lib.kill pid w).1)
        × ((send_wait lib (start lib b).1).0 ≡ ok ((lib.wait pid w).0))
  unfolding start start_cmd new_cmd started stop stop_cmd kill_process put_killed send_wait wait_cmd
      wait_process put_waited
  start-stop b pid w f h =
      let c = record (new_cmd lib b.config) { process = some pid } in
      let b' = record b { cmd = some c; host = w } in
      let s : start lib b ≡ (ok waits, b') = when_free-free (start_cmd lib) b f ∙ rw h refl in
      let t = when_free-free (λ b. stop_cmd lib b.cmd b) b' f in
      rw s (refl, ap (λ x. x.0) t, ap (λ x. x.1.host) t, refl)
