-- ===== src/Context.antt =====
-- src/context/Context.cpp, and the life of the metrics in it (src/metrics/Metrics.cpp): the context is
-- a static object of GetDefaultContext, which makes the metrics, whose looper calls GetDefaultContext.
pub mod Order
pub mod Deletion
use multipath_proxy.Prelude.{Bool, true, false, List, [], ◌∷◌, ◌++◌, ◌≡◌, if◌then◌else◌}

-- The lines of metrics.csv.
pub data Line : Type 0 where
  heading_line row_line : Line

-- Where the thread stands that makes and deletes the context, by what it does next: Context() with
-- Metrics(), the release of the guard of the static object, and ~Context() with ~Metrics(), which ends
-- with ~Looper.
pub data OwnerAt : Type 0 where
  making_flows making_connections opening starting writing_heading releasing in_use : OwnerAt
  deleting_flows closing deleting_file stopping joining deleting_connections gone : OwnerAt

-- Where the thread of the looper stands in Run and WriteMetricsToDisk. The names with `lost` are for the
-- use of an object that is deleted.
pub data LooperAt : Type 0 where
  unborn testing asking listing writing sleeping finished lost_connections lost_file : LooperAt

pub record System : Type 0 where
  pub enabled : Bool
  pub initialised : Bool
  pub has_flows : Bool
  pub has_connections : Bool
  pub has_file : Bool
  pub is_open : Bool
  pub running : Bool
  pub lines : List Line
  pub owner : OwnerAt
  pub looper : LooperAt

-- Before the first call of GetDefaultContext; `enabled` is METRICS_ENABLED.
abbrev pub before : Bool → System
before enabled = record {
  enabled = enabled;
  initialised = false;
  has_flows = false;
  has_connections = false;
  has_file = false;
  is_open = false;
  running = false;
  lines = [];
  owner = making_flows;
  looper = unborn;
}

-- `<<` to the file: a stream that is closed takes nothing.
abbrev pub put_line : Line → System → System
put_line l s = record s { lines = if s.is_open then s.lines ++ l ∷ [] else s.lines }

abbrev pub when_ended : LooperAt → OwnerAt
when_ended finished = deleting_connections
when_ended _ = joining

-- Context().
abbrev pub construct : OwnerAt → System → System
construct making_flows s = record s { has_flows = true; owner = making_connections }
construct making_connections s = record s {
  has_connections = true;
  owner = if s.enabled then opening else releasing;
}
construct _ s = s

-- Metrics().
abbrev pub construct_metrics : OwnerAt → System → System
construct_metrics opening s = record s { has_file = true; is_open = true; owner = starting }
construct_metrics starting s = record s {
  running = true;
  looper = testing;
  owner = writing_heading;
}
construct_metrics writing_heading s = record (put_line heading_line s) { owner = releasing }
construct_metrics _ s = s

-- ~Context().
abbrev pub destruct : OwnerAt → System → System
destruct deleting_flows s = record s {
  has_flows = false;
  owner = if s.enabled then closing else deleting_connections;
}
destruct deleting_connections s = record s { has_connections = false; owner = gone }
destruct _ s = s

-- ~Metrics(), and the join in ~Looper.
abbrev pub destruct_metrics : OwnerAt → System → System
destruct_metrics closing s = record s { is_open = false; owner = deleting_file }
destruct_metrics deleting_file s = record s { has_file = false; owner = stopping }
destruct_metrics stopping s = record s { running = false; owner = joining }
destruct_metrics joining s = record s { owner = when_ended s.looper }
destruct_metrics _ s = s

-- GetDefaultContext: the first call makes the object, and calls of other threads wait for it.
abbrev pub default_context : OwnerAt → System → System
default_context releasing s = record s { initialised = true; owner = in_use }
default_context in_use s = record s { owner = deleting_flows }
default_context _ s = s

abbrev pub owner_step : OwnerAt → System → System
owner_step making_flows s = construct making_flows s
owner_step making_connections s = construct making_connections s
owner_step opening s = construct_metrics opening s
owner_step starting s = construct_metrics starting s
owner_step writing_heading s = construct_metrics writing_heading s
owner_step releasing s = default_context releasing s
owner_step in_use s = default_context in_use s
owner_step deleting_flows s = destruct deleting_flows s
owner_step closing s = destruct_metrics closing s
owner_step deleting_file s = destruct_metrics deleting_file s
owner_step stopping s = destruct_metrics stopping s
owner_step joining s = destruct_metrics joining s
owner_step deleting_connections s = destruct deleting_connections s
owner_step gone s = s

-- The looper. `more` says whether there is another connection to write a row for; a row is one step.
abbrev pub looper_step : Bool → LooperAt → System → System
looper_step more unborn s = s
looper_step more testing s = record s { looper = if s.running then asking else finished }
looper_step more asking s = record s { looper = if s.initialised then listing else asking }
looper_step more listing s = record s {
  looper = if s.has_connections then (if more then writing else sleeping) else lost_connections;
}
looper_step more writing s =
    if s.has_file
    then record (put_line row_line s) { looper = listing }
    else record s { looper = lost_file }
looper_step more sleeping s = record s { looper = testing }
looper_step more finished s = s
looper_step more lost_connections s = s
looper_step more lost_file s = s

unfoldable pub owner_move : System → System
owner_move s = owner_step s.owner s

unfoldable pub looper_move : Bool → System → System
looper_move more s = looper_step more s.looper s

-- One of the two threads moves.
pub data Step (s t : System) : Type 0 where
  by_owner : t ≡ owner_move s → Step s t
  by_looper : (more : Bool) → t ≡ looper_move more s → Step s t

pub data Reaches (s : System) : System → Type 0 where
  here : Reaches s s
  next : {t u : System} → Reaches s t → Step t u → Reaches s u
