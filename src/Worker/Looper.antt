-- ===== src/Worker/Looper.antt =====
-- src/worker/Looper.h: a thread that calls a function until it is stopped.
use multipath_proxy.Prelude.{ℕ, zero, suc, Bool, true, false, if◌then◌else◌}
use multipath_proxy.Text.{Text, codes}
use multipath_proxy.Outcome.{Outcome, done, throws, fault, blocked, terminated}
use multipath_proxy.Action.{Action}

-- `running_`, and whether there is a thread to join.
pub record Looper : Type 0 where
  pub running : Bool
  pub has_thread : Bool

-- Looper(function)
abbrev pub new : Looper
new = record { running = false; has_thread = false }

unfoldable pub start : Looper → Looper
start l = if l.running then l else record { running = true; has_thread = true }

unfoldable pub stop : Looper → Looper
stop l = record l { running = false }

abbrev pub is_running : Looper → Bool
is_running l = l.running

-- ~Looper: join waits for the thread, which goes on as long as `running_` is set. Without a thread
-- join throws, out of a destructor.
unfoldable pub destroy : Looper → Outcome (Unit {0})
destroy l =
    if l.has_thread then (if l.running then fault blocked else done tt) else fault terminated

unfoldable pub to_string : Looper → Text
to_string l = codes "Looper[]"

module _ {S : Type 0} (running : S → Bool) (function : Action S (Unit {0})) where
  -- The handler around a call: it ends with the state that the call has left, and the exception is
  -- only logged.
  abbrev pub handled : Outcome (Unit {0}) × S → (S → Outcome S) → Outcome S
  handled (done u, s) next = next s
  handled (throws e, s) next = next s
  handled (fault x, s) next = fault x

  -- Run. Each round of the fuel is a call; out of fuel the loop is still going.
  unfoldable pub run : ℕ → S → Outcome S
  run zero s = fault blocked
  run (suc fuel) s = if running s then handled (function s) (run fuel) else done s
