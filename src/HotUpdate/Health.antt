-- ===== src/HotUpdate/Health.antt =====
-- pkg/plugins/hot_update/status.go. The lock of the structure is left out: each method holds it.
use kidecar.Base.{ℕ, ◌+◌, ◌-◌, ◌%◌, ◌^◌, String, Option, none}
use kidecar.Base.Outcome.{Err}

pub record HotUpdateStatus : Type 0 where
  pub status : String
  -- the last error
  pub err : Option Err
  -- activeGoroutines, an `int`, as its 64 bits
  pub active_goroutines : ℕ

-- &HotUpdateStatus{}
abbrev pub new_status : HotUpdateStatus
new_status = record { status = ""; err = none; active_goroutines = 0 }

abbrev pub set_status : String → HotUpdateStatus → HotUpdateStatus
set_status text h = record h { status = text }

abbrev pub get_status : HotUpdateStatus → String
get_status h = h.status

-- The other methods are called nowhere.
set_error : Option Err → HotUpdateStatus → HotUpdateStatus
set_error e h = record h { err = e }

get_error : HotUpdateStatus → Option Err
get_error h = h.err

increment_goroutines : HotUpdateStatus → HotUpdateStatus
increment_goroutines h = record h { active_goroutines = (h.active_goroutines + 1) % 2 ^ 64 }

decrement_goroutines : HotUpdateStatus → HotUpdateStatus
decrement_goroutines h = record h {
  active_goroutines = (h.active_goroutines + (2 ^ 64 - 1)) % 2 ^ 64;
}

get_active_goroutines : HotUpdateStatus → ℕ
get_active_goroutines h = h.active_goroutines
