-- ===== src/BinaryPlugin.antt =====
-- pkg/plugins/binary/plugin.go: the plugin that runs a program of the configuration.
pub mod Runs
pub mod Waits
use Prim.Native.String.{◌++◌ as str_append}
use kidecar.Base.{String, Bool, true, false, Option, none, some, List, [], ◌∷◌, ◌++◌}
use kidecar.Base.Outcome.{Err, Outcome, ok, err, panic, msg, nil_pointer, blocked}
use kidecar.Base.Exec.{Exec, pure, fail, crash}
use kidecar.Api.{Binary}
use kidecar.Api.Sidecar.{PluginStatus}

-- The packages os and os/exec, over the states `W` of the host and its processes `Pid`.
pub record Commands (W Pid : Type 0) : Type 0 where
  pub environ : List String
  -- Cmd.Start, with the path, the arguments and the environment
  pub start : String → List String → List String → Exec W Pid
  -- Cmd.Wait of a command that was started: nil, or the error
  pub wait : Pid → W → Option Err × W
  pub kill : Pid → Exec W (Unit {0})
  -- time.Now().Format("2006-01-02 15:04:05")
  pub now : String

-- exec.Cmd; the standard output and error are the sidecar's own.
pub record Cmd (Pid : Type 0) : Type 0 where
  pub path : String
  pub args : List String
  pub env : List String
  -- nil until the command is started
  pub process : Option Pid

-- The fields of `binary`, and the host.
pub record BinaryPlugin (W Pid : Type 0) : Type 0 where
  pub name : String
  pub config : Binary
  pub cmd : Option (Cmd Pid)
  pub status : Option PluginStatus
  -- whether `mu` is held by a Start that waits until its error is received from errCh
  pub locked : Bool
  pub host : W

-- The config `interface{}` of Init; a *Binary may be nil.
pub data InitConfig : Type 0 where
  binary_config : Option Binary → InitConfig
  other_config : InitConfig

-- What Start leaves on its way to errCh, which has no buffer: an error that it sends itself, `mu` being
-- held until someone receives it, or a goroutine that waits for the command.
pub data Sending : Type 0 where
  sends : Err → Sending
  waits : Sending

module _ {W Pid : Type 0} (lib : Commands W Pid) where
  unfoldable pub new_plugin : Binary → W → BinaryPlugin W Pid
  new_plugin c w = record {
    name = "binary";
    config = c;
    cmd = none;
    status = none;
    locked = false;
    host = w;
  }

  -- b.mu.Lock(), in front of a method that releases it at its end
  if_free : {A : Type 0} → Bool → Exec (BinaryPlugin W Pid) A → Exec (BinaryPlugin W Pid) A
  if_free true m b = (panic blocked, b)
  if_free false m b = m b

  pub when_free : {A : Type 0} → Exec (BinaryPlugin W Pid) A → Exec (BinaryPlugin W Pid) A
  unfolding if_free
  when_free m b = if_free b.locked m b

  unfoldable pub init : InitConfig → Exec (BinaryPlugin W Pid) (Unit {0})
  init (binary_config (some c)) b = (ok tt, record b { config = c })
  init (binary_config none) b = (panic nil_pointer, b)
  init other_config b = (err (msg "invalid config type"), b)

  -- The command of b.config, before it is started.
  new_cmd : Binary → Cmd Pid
  new_cmd c = record { path = c.path; args = c.args; env = lib.environ ++ c.env; process = none }

  -- What b.cmd.Start() leaves. It makes no panic of its own.
  started : BinaryPlugin W Pid → Cmd Pid → Outcome Pid × W → Outcome Sending × BinaryPlugin W Pid
  started b c (ok pid, w) =
      (ok waits, record b { cmd = some (record c { process = some pid }); host = w })
  started b c (err e, w) = (ok (sends e), record b { cmd = some c; locked = true; host = w })
  started b c (panic p, w) = (panic p, record b { cmd = some c; host = w })

  start_cmd : Exec (BinaryPlugin W Pid) Sending
  unfolding new_cmd started
  start_cmd b = let c = new_cmd b.config in started b c (lib.start c.path c.args c.env b.host)

  -- Start, until it returns or waits for a receiver of its error
  unfoldable pub start : Exec (BinaryPlugin W Pid) Sending
  unfolding when_free start_cmd
  start = when_free start_cmd

  -- The error of Start was received: Start returns, and its deferred Unlock is run.
  unfoldable pub delivered : BinaryPlugin W Pid → BinaryPlugin W Pid
  delivered b = record b { locked = false }

  -- b.cmd.Wait(), in the goroutine that Start leaves: what it sends on errCh, nil included. A command
  -- without a process is answered with an error.
  put_waited : BinaryPlugin W Pid → Option Err × W → Outcome (Option Err) × BinaryPlugin W Pid
  put_waited b (sent, w) = (ok sent, record b { host = w })

  wait_process : Option Pid → Exec (BinaryPlugin W Pid) (Option Err)
  unfolding put_waited
  wait_process none b = (ok (some (msg "exec: not started")), b)
  wait_process (some pid) b = put_waited b (lib.wait pid b.host)

  wait_cmd : Option (Cmd Pid) → Exec (BinaryPlugin W Pid) (Option Err)
  unfolding wait_process
  wait_cmd none b = (panic nil_pointer, b)
  wait_cmd (some c) b = wait_process c.process b

  pub send_wait : Exec (BinaryPlugin W Pid) (Option Err)
  unfolding wait_cmd
  send_wait b = wait_cmd b.cmd b

  put_killed : BinaryPlugin W Pid → Outcome (Unit {0}) × W → Outcome (Unit {0}) × BinaryPlugin W Pid
  put_killed b (r, w) = (r, record b { host = w })

  kill_process : Option Pid → Exec (BinaryPlugin W Pid) (Unit {0})
  unfolding put_killed
  kill_process none b = (ok tt, b)
  kill_process (some pid) b = put_killed b (lib.kill pid b.host)

  stop_cmd : Option (Cmd Pid) → Exec (BinaryPlugin W Pid) (Unit {0})
  unfolding kill_process
  stop_cmd none b = (ok tt, b)
  stop_cmd (some c) b = kill_process c.process b

  unfoldable pub stop : Exec (BinaryPlugin W Pid) (Unit {0})
  unfolding when_free stop_cmd
  stop = when_free (λ b. stop_cmd b.cmd b)

  version : BinaryPlugin W Pid → String
  version b = b.config.version

  or_unavailable : Exec (BinaryPlugin W Pid) PluginStatus
  or_unavailable b = elim b.status [
    | none ↦ (err (msg "status not available"), b)
    | some s ↦ (ok s, b)
  ]

  unfoldable pub status : Exec (BinaryPlugin W Pid) PluginStatus
  unfolding when_free or_unavailable
  status = when_free or_unavailable

  has_process : Option (Cmd Pid) → Bool
  has_process none = false
  has_process (some c) = elim c.process [ none ↦ false | some pid ↦ true ]

  -- updateStatus; nothing in the program calls it.
  update_status : Exec (BinaryPlugin W Pid) (Unit {0})
  unfolding when_free has_process
  update_status = when_free (λ b. (
    ok tt,
    record b {
      status = some (record {
        name = b.name;
        version = b.config.version;
        running = has_process b.cmd;
        last_checked = lib.now;
        health = "Healthy";
        infos = str_append "Binary path: " b.config.path ∷ [];
      });
    },
  ))
