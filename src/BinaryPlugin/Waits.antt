-- ===== src/BinaryPlugin/Waits.antt =====
-- A Start of a binary plugin whose command does not start.
use kidecar.Base.{◌≡◌, ◌≢◌, refl, ◌∙◌, true, false, some, ◌++◌}
use kidecar.Base.Outcome.{Err, Fault, ok, err, panic, blocked}
use kidecar.BinaryPlugin.{
  Commands, BinaryPlugin, sends, if_free, when_free, new_cmd, started, start_cmd, start, delivered,
  stop, status,
}
use kidecar.BinaryPlugin.Runs.{status-answers, when_free-free}

module _ {W Pid : Type 0} (lib : Commands W Pid) where
  -- Where the command of a binary plugin does not start, its Start sends the error with the lock held:
  -- until someone receives the error, a call of Status, Stop or Start of the plugin does not come back.
  -- When the error was received, Status comes back.
  pub start-waits :
      (b : BinaryPlugin W Pid) (e : Err) (w : W)
      → b.locked ≡ false
      → lib.start b.config.path b.config.args (lib.environ ++ b.config.env) b.host ≡ (err e, w)
      → ((start lib b).0 ≡ ok (sends e))
        × ((status lib (start lib b).1).0 ≡ panic blocked)
        × ((stop lib (start lib b).1).0 ≡ panic blocked)
        × ((start lib (start lib b).1).0 ≡ panic blocked)
        × ((p : Fault) → (status lib (delivered lib (start lib b).1)).0 ≢ panic p)
  unfolding start start_cmd new_cmd started status stop when_free if_free delivered
  start-waits b e w free fails =
      let c = new_cmd lib b.config in
      let b' = record b { cmd = some c; locked = true; host = w } in
      let s : start lib b ≡ (ok (sends e), b') =
        when_free-free lib (start_cmd lib) b free ∙ rw fails refl in
      rw s (refl, refl, refl, refl, λ p. status-answers lib (record b' { locked = false }) p refl)
