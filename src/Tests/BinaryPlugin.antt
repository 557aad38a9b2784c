-- ===== src/Tests/BinaryPlugin.antt =====
-- A binary plugin that was started and stopped.
use kidecar.Base.{ℕ, suc, ◌≡◌, ◌≢◌, refl, true, false, none, [], if◌then◌else◌}
use kidecar.Base.Outcome.{ok, err, panic, msg, blocked, Fault}
use kidecar.Api.{Binary}
use kidecar.BinaryPlugin.{Commands, BinaryPlugin, new_plugin, start, stop, status, sends, delivered}
use kidecar.BinaryPlugin.Waits.{start-waits}
use kidecar.BinaryPlugin.Runs.{Life, made, after, starts, stops, status-never}

-- A host that counts the processes.
abbrev pub commands : Commands ℕ ℕ
commands = record {
  environ = [];
  start = λ path args env n. (ok n, suc n);
  wait = λ pid n. (none, n);
  kill = λ pid n. (ok tt, n);
  now = "2024-11-05 10:00:00";
}

abbrev pub agent : Binary
agent = record {
  path = "/bin/agent";
  version = "v1";
  checksum = "";
  args = [];
  env = [];
  dependencies = [];
  permissions = "";
  description = "";
  download_url = "";
}

abbrev started : BinaryPlugin ℕ ℕ
started = (start commands (new_plugin commands agent 0)).1

abbrev stopped : BinaryPlugin ℕ ℕ
stopped = (stop commands started).1

a_life : Life commands stopped
a_life = after (after (made agent 0) (starts (new_plugin commands agent 0))) (stops started)

status-never_example :
    (stopped.name ≡ "binary")
    × (status commands stopped
        ≡ (if stopped.locked then panic blocked else err (msg "status not available"), stopped))
status-never_example = status-never commands stopped a_life

-- A host on which the command is not there.
abbrev pub without_agent : Commands ℕ ℕ
without_agent = record commands { start = λ path args env n. (err (msg "no such file"), n) }

free : (new_plugin without_agent agent 0).locked ≡ false
unfolding new_plugin
free = refl

not_found :
    without_agent.start "/bin/agent" [] [] (new_plugin without_agent agent 0).host
    ≡ (err (msg "no such file"), 0)
unfolding new_plugin
not_found = refl

abbrev pub waiting : BinaryPlugin ℕ ℕ
waiting = (start without_agent (new_plugin without_agent agent 0)).1

abbrev pub other_agent : BinaryPlugin ℕ ℕ
other_agent = new_plugin commands agent 0

pub waiting_locked : waiting.locked ≡ true
unfolding new_plugin start
waiting_locked = refl

start-waits_example :
    ((start without_agent (new_plugin without_agent agent 0)).0 ≡ ok (sends (msg "no such file")))
    × ((status without_agent waiting).0 ≡ panic blocked)
    × ((stop without_agent waiting).0 ≡ panic blocked)
    × ((start without_agent waiting).0 ≡ panic blocked)
    × ((p : Fault) → (status without_agent (delivered without_agent waiting)).0 ≢ panic p)
start-waits_example =
    start-waits without_agent (new_plugin without_agent agent 0) (msg "no such file") 0 free
      not_found
