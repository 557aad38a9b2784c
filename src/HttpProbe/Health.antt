-- ===== src/HttpProbe/Health.antt =====
-- pkg/plugins/http_probe/status.go. The lock of the structure is left out: each method holds it.
use kidecar.Base.{ℕ, ◌+◌, ◌-◌, ◌%◌, ◌^◌, String, Option, none}
use kidecar.Base.Outcome.{Err}

pub record HttpProbeStatus : Type 0 where
  pub status : String
  -- the last error
  pub err : Option Err
  -- activeGoroutines, an `int`, as its 64 bits
  pub active : ℕ

-- &HttpProbeStatus{}
abbrev pub new_status : HttpProbeStatus
new_status = record { status = ""; err = none; active = 0 }

abbrev pub set_status : String → HttpProbeStatus → HttpProbeStatus
set_status text h = record h { status = text }

abbrev pub get_status : HttpProbeStatus → String
get_status h = h.status

-- setError, getError and getActiveGoroutines are called nowhere.
set_error : Option Err → HttpProbeStatus → HttpProbeStatus
set_error e h = record h { err = e }

get_error : HttpProbeStatus → Option Err
get_error h = h.err

unfoldable pub increment_goroutines : HttpProbeStatus → HttpProbeStatus
increment_goroutines h = record h { active = (h.active + 1) % 2 ^ 64 }

unfoldable pub decrement_goroutines : HttpProbeStatus → HttpProbeStatus
decrement_goroutines h = record h { active = (h.active + (2 ^ 64 - 1)) % 2 ^ 64 }

get_active_goroutines : HttpProbeStatus → ℕ
get_active_goroutines h = h.active
