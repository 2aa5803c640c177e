-- ===== src/Controller/Loop.antt =====
-- `requestRebuild`, `runRebuildLoop` and `Start` of internal/controller/controller.go: when a request
-- leads to a rebuild. `Ready` also asks for a dynamic client where a custom resource is enabled; the agent
-- makes one in this case, and the loop takes it as given.
pub mod Covered
use kbeacon.Prelude.{ℕ, ◌+◌, Bool, true, false, Option, none, some, if◌then◌else◌}
use kbeacon.Text.{Text, str}

-- Where `runRebuildLoop` is: at its outer `select`, in the loop `Drain` with the latest reason, in
-- `rebuild`, or returned.
pub data Phase : Type 0 where
  idle : Phase
  draining : Text → Phase
  rebuilding : Text → Phase
  stopped : Phase

-- Where `Start` is: before every cache is synced, before `requestRebuild("initial-sync")`, or after it.
pub data Startup : Type 0 where
  syncing : Startup
  synced : Startup
  started : Startup

-- `requests` counts the calls of `requestRebuild`, and `covered` those that came before the latest
-- rebuild began to read the informers' objects.
pub record Loop : Type 0 where
  pub channel : Option Text
  pub phase : Phase
  pub startup : Startup
  pub requests : ℕ
  pub covered : ℕ

abbrev pub offer : Option Text → Text → Option Text
offer none reason = some reason
offer (some waiting) reason = some waiting

-- A send to a channel of capacity 1, or nothing if it is full.
unfoldable pub request_rebuild : Text → Loop → Loop
request_rebuild reason s = record s { channel = offer s.channel reason; requests = s.requests + 1 }

-- `Ready()`
abbrev pub ready : Startup → Bool
ready syncing = false
ready _ = true

-- The timer has fired and `rebuild` is called: it returns at once unless the controller is ready.
unfoldable pub start_rebuild : Text → Loop → Loop
start_rebuild reason s = record s {
  phase = (if ready s.startup then rebuilding reason else idle);
  covered = (if ready s.startup then s.requests else s.covered);
}

pub data Step : Loop → Loop → Type 0 where
  -- An informer's handler.
  request : (reason : Text) (s : Loop) → Step s (request_rebuild reason s)
  -- `case reason := <-c.rebuildCh`
  receive :
      (reason : Text) (startup : Startup) (n m : ℕ)
      → Step
          (record {
            channel = some reason;
            phase = idle;
            startup = startup;
            requests = n;
            covered = m;
          })
          (record {
            channel = none;
            phase = draining reason;
            startup = startup;
            requests = n;
            covered = m;
          })
  -- `case latestReason = <-c.rebuildCh`
  drain :
      (reason old : Text) (startup : Startup) (n m : ℕ)
      → Step
          (record {
            channel = some reason;
            phase = draining old;
            startup = startup;
            requests = n;
            covered = m;
          })
          (record {
            channel = none;
            phase = draining reason;
            startup = startup;
            requests = n;
            covered = m;
          })
  -- `case <-timer.C`
  fire :
      (reason : Text) (channel : Option Text) (startup : Startup) (n m : ℕ)
      → Step
          (record {
            channel = channel;
            phase = draining reason;
            startup = startup;
            requests = n;
            covered = m;
          })
          (start_rebuild reason (record {
            channel = channel;
            phase = draining reason;
            startup = startup;
            requests = n;
            covered = m;
          }))
  -- `rebuild` returns.
  finish :
      (reason : Text) (channel : Option Text) (startup : Startup) (n m : ℕ)
      → Step
          (record {
            channel = channel;
            phase = rebuilding reason;
            startup = startup;
            requests = n;
            covered = m;
          })
          (record { channel = channel; phase = idle; startup = startup; requests = n; covered = m })
  -- The last cache is synced.
  sync :
      (channel : Option Text) (phase : Phase) (n m : ℕ)
      → Step
          (record {
            channel = channel;
            phase = phase;
            startup = syncing;
            requests = n;
            covered = m;
          })
          (record { channel = channel; phase = phase; startup = synced; requests = n; covered = m })
  -- `c.requestRebuild("initial-sync")`
  initial :
      (channel : Option Text) (phase : Phase) (n m : ℕ)
      → Step
          (record { channel = channel; phase = phase; startup = synced; requests = n; covered = m })
          (request_rebuild (str "initial-sync") (record {
            channel = channel;
            phase = phase;
            startup = started;
            requests = n;
            covered = m;
          }))
  -- `case <-ctx.Done()`, in the outer `select` and in the inner one.
  stop :
      (channel : Option Text) (startup : Startup) (n m : ℕ)
      → Step
          (record { channel = channel; phase = idle; startup = startup; requests = n; covered = m })
          (record {
            channel = channel;
            phase = stopped;
            startup = startup;
            requests = n;
            covered = m;
          })
  stop_draining :
      (reason : Text) (channel : Option Text) (startup : Startup) (n m : ℕ)
      → Step
          (record {
            channel = channel;
            phase = draining reason;
            startup = startup;
            requests = n;
            covered = m;
          })
          (record {
            channel = channel;
            phase = stopped;
            startup = startup;
            requests = n;
            covered = m;
          })

abbrev pub new_loop : Loop
new_loop = record { channel = none; phase = idle; startup = syncing; requests = 0; covered = 0 }

pub data Reach : Loop → Type 0 where
  start : Reach new_loop
  later : {s t : Loop} → Reach s → Step s t → Reach t

pub data Steps : Loop → Loop → Type 0 where
  done : {s : Loop} → Steps s s
  step : {s t u : Loop} → Step s t → Steps t u → Steps s u
