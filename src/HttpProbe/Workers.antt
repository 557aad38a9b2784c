-- ===== src/HttpProbe/Workers.antt =====
-- Start of pkg/plugins/http_probe/plugin.go with its goroutines, one for each of the `n` endpoints, and
-- the counter of status.go: the steps in any order in which they can interleave. A round of
-- probeAndStore is a step that changes nothing here; what it does is in HttpProbe.Plugin. Nothing ever sends on the channel reloadConfig, which Start makes for itself, so the branch
-- of its `select` that receives from it is never taken.
pub mod Invariant
pub mod Endless
use kidecar.Base.{ℕ, suc, ◌≡◌, ◌≢◌, Bool, true, false}
use kidecar.HttpProbe.Health.{
  HttpProbeStatus, new_status, set_status, increment_goroutines, decrement_goroutines,
}

-- Where Start stands.
pub data Phase : Type 0 where
  -- in the `select` of the delay
  delaying : Phase
  -- in the loop over the endpoints, with so many left
  launching : ℕ → Phase
  -- in the `select` behind it
  waiting : Phase
  -- between setStatus("Stopped") and cancel()
  stopping : Phase
  returned : Phase

pub record Workers : Type 0 where
  pub phase : Phase
  pub shared : HttpProbeStatus
  -- the goroutines that are in probeAndStore
  pub probing : ℕ
  -- those that have left it and are not counted down yet
  pub leaving : ℕ
  -- whether cancel() was called
  pub cancelled : Bool

-- What Init leaves.
abbrev pub at_start : Workers
at_start = record {
  phase = delaying;
  shared = new_status;
  probing = 0;
  leaving = 0;
  cancelled = false;
}

-- If `ctx` ever ends, it may be done at any time in either `select`; the context.TODO() of
-- cmd/sidecar/main.go never ends.
pub data Step (ends : Bool) (n : ℕ) (s : Workers) (t : Workers) : Type 0 where
  give_up :
      ends ≡ true
      → s.phase ≡ delaying
      → t ≡ record s { phase = returned; shared = set_status "Stopped" s.shared }
      → Step ends n s t
  nothing_to_probe :
      s.phase ≡ delaying
      → n ≡ 0
      → t ≡ record s { phase = returned; shared = set_status "Stopped" s.shared }
      → Step ends n s t
  begin :
      s.phase ≡ delaying
      → n ≢ 0
      → t ≡ record s { phase = launching n; shared = set_status "Running" s.shared }
      → Step ends n s t
  launch :
      (k : ℕ)
      → s.phase ≡ launching (suc k)
      → t ≡ record s {
        phase = launching k;
        shared = increment_goroutines s.shared;
        probing = suc s.probing;
      }
      → Step ends n s t
  launched : s.phase ≡ launching 0 → t ≡ record s { phase = waiting } → Step ends n s t
  stop :
      ends ≡ true
      → s.phase ≡ waiting
      → t ≡ record s { phase = stopping; shared = set_status "Stopped" s.shared }
      → Step ends n s t
  cancel :
      s.phase ≡ stopping → t ≡ record s { phase = returned; cancelled = true } → Step ends n s t
  probe_again : (k : ℕ) → s.probing ≡ suc k → s.cancelled ≡ false → t ≡ s → Step ends n s t
  leave :
      (k : ℕ)
      → s.probing ≡ suc k
      → s.cancelled ≡ true
      → t ≡ record s { probing = k; leaving = suc s.leaving }
      → Step ends n s t
  count_down :
      (k : ℕ)
      → s.leaving ≡ suc k
      → t ≡ record s { leaving = k; shared = decrement_goroutines s.shared }
      → Step ends n s t

-- The states after so many steps.
pub data Run (ends : Bool) (n : ℕ) : ℕ → Workers → Type 0 where
  here : Run ends n 0 at_start
  next : {m : ℕ} {s t : Workers} → Run ends n m s → Step ends n s t → Run ends n (suc m) t
