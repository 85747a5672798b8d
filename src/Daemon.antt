-- ===== src/Daemon.antt =====
-- src/daemon.rs: the builder, the dispatch of a connection, the event loop and `run`. The callbacks
-- are functions of the application's state and of the machine's, which they may change.
pub mod Builder
pub mod Connection
pub mod Run
pub mod Duplex
pub mod Replies
pub mod Idle
pub mod Visits
pub mod Queue
pub mod Schedule
pub mod Lifetime
pub mod Instances
pub mod Exclusion
pub mod Arrival
pub mod Refinement
pub mod Kept
pub mod Stops
pub mod Release
use sockd.Common.{ℕ, List, Option}
use sockd.Outcome.{Result, Exec}
use sockd.Error.{BoxError}
use sockd.Config.{DaemonConfig}

abbrev pub StartCallback : Type 0 → Type 0 → Type 0
StartCallback W S = Exec W BoxError S

-- `FnMut(&mut S, &[u8])`: the state comes back whether or not the call succeeds.
abbrev pub RequestCallback : Type 0 → Type 0 → Type 0
RequestCallback W S = S → List ℕ → W → (Result (List ℕ) BoxError × S) × W

abbrev pub StopCallback : Type 0 → Type 0 → Type 0
StopCallback W S = S → Exec W BoxError (Unit {0})

pub record Daemon (W S : Type 0) : Type 0 where
  pub config : DaemonConfig
  pub on_start : StartCallback W S
  pub on_request : RequestCallback W S
  pub on_stop : StopCallback W S

pub record DaemonBuilder (W S : Type 0) : Type 0 where
  pub config : DaemonConfig
  pub on_start : StartCallback W S
  pub on_request : Option (RequestCallback W S)
  pub on_stop : StopCallback W S

pub data ConnectionOutcome : Type 0 where
  go_on stop : ConnectionOutcome

-- The state that the event loop runs on: the application's and the machine's.
pub record Running (W S : Type 0) : Type 0 where
  pub app : S
  pub world : W

-- An action on the machine alone, and `(self.on_request)(state, payload)`.
module _ {W S E A : Type 0} where
  abbrev pub on_world : Exec W E A → Exec (Running W S) E A
  on_world m r = let (a, w') = m r.world in (a, record r { world = w' })
