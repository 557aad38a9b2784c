-- ===== src/Assembler/Serve.antt =====
-- The health server of pkg/assembler/mgr.go, which Start launches if isStartWebServer is set.
use kidecar.Base.{ℕ, String, ◌⊎◌, inl, inr}
use kidecar.Base.Outcome.{Err}
use kidecar.Base.Exec.{Exec, pure, attempt, ◌>>=◌, ◌>>◌}
use kidecar.Assembler.Main.{Exit, exited, main_returned}

-- net/http, over the states of the process; a handler answers with a code and a body.
pub record WebServer (S : Type 0) : Type 0 where
  pub handle_func : String → ℕ × String → Exec S (Unit {0})
  pub listen_and_serve : String → Exec S (Unit {0})

module _ {S : Type 0} (web : WebServer S) where
  -- log.Fatalf ends the program with 1.
  served : Err ⊎ Unit {0} → Exec S Exit
  served (inl e) = pure (exited 1)
  served (inr u) = pure main_returned

  start_server : Exec S Exit
  unfolding served
  start_server = do
    web.handle_func "/healthz" (200, "OK")
    r ← attempt (web.listen_and_serve ":8080")
    served r
