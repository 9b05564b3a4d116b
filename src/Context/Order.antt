-- ===== src/Context/Order.antt =====
-- What the guard of the static object orders, and what it does not (src/context/Context.cpp,
-- src/metrics/Metrics.cpp).
use mathlib.Core.Bool.{Bool, true, false}
use mathlib.Core.Path.{subst}
use multipath_proxy.Prelude.{List, [], ◌∷◌, ◌++◌, ◌≡◌, ◌≢◌, refl, sym, ◌⊎◌, inl, inr, arith}
use multipath_proxy.Context.{
  Line, heading_line, row_line, OwnerAt, making_flows, making_connections, opening, starting,
  writing_heading, releasing, in_use, deleting_flows, closing, deleting_file, stopping, joining,
  deleting_connections, gone, LooperAt, unborn, testing, asking, listing, writing, sleeping,
  finished, lost_connections, lost_file, System, before, owner_step, looper_step, owner_move,
  looper_move, Step, by_owner, by_looper, Reaches, here, next,
}

-- The heading is the first line.
abbrev pub Begins : List Line → Type 0
Begins [] = ⊥
Begins (heading_line ∷ ls) = Unit {0}
Begins (row_line ∷ ls) = ⊥

-- The phases of the owner: the context is made, the looper is not started, the heading is not
-- written, the map of connections is there, the looper is joined.
abbrev pub released : OwnerAt → Bool
released making_flows = false
released making_connections = false
released opening = false
released starting = false
released writing_heading = false
released releasing = false
released _ = true

abbrev pub unstarted : OwnerAt → Bool
unstarted making_flows = true
unstarted making_connections = true
unstarted opening = true
unstarted starting = true
unstarted _ = false

abbrev pub headless : OwnerAt → Bool
headless making_flows = true
headless making_connections = true
headless opening = true
headless starting = true
headless writing_heading = true
headless _ = false

abbrev pub connected : OwnerAt → Bool
connected making_flows = false
connected making_connections = false
connected gone = false
connected _ = true

abbrev pub joined : OwnerAt → Bool
joined deleting_connections = true
joined gone = true
joined _ = false

abbrev pub with_file : OwnerAt → Bool
with_file starting = true
with_file writing_heading = true
with_file _ = false

abbrev pub in_metrics : OwnerAt → Bool
in_metrics opening = true
in_metrics starting = true
in_metrics writing_heading = true
in_metrics _ = false

abbrev pub living : OwnerAt → Bool
living writing_heading = true
living releasing = true
living in_use = true
living deleting_flows = true
living closing = true
living _ = false

-- The looper goes on.
abbrev pub goes : LooperAt → Bool
goes testing = true
goes asking = true
goes listing = true
goes writing = true
goes sleeping = true
goes _ = false

-- The looper has not come past the guard, or has nothing more to do.
abbrev pub waits : LooperAt → Bool
waits unborn = true
waits testing = true
waits asking = true
waits finished = true
waits _ = false

abbrev pub rests : LooperAt → Bool
rests unborn = true
rests finished = true
rests _ = false

pub record IsOrdered (s : System) : Type 0 where
  pub guarded : s.initialised ≡ released s.owner
  pub behind : (s.initialised ≡ true) ⊎ (waits s.looper ≡ true)
  pub not_begun : (unstarted s.owner ≡ false) ⊎ (s.looper ≡ unborn)
  pub with_metrics : (s.enabled ≡ true) ⊎ (s.looper ≡ unborn)
  pub metered : (s.enabled ≡ true) ⊎ (in_metrics s.owner ≡ false)
  pub opened : (with_file s.owner ≡ false) ⊎ ((s.is_open ≡ true) × (s.has_file ≡ true))
  pub empty : (headless s.owner ≡ false) ⊎ (s.lines ≡ [])
  pub begun : ((headless s.owner ≡ true) ⊎ ((s.enabled ≡ false) × (s.lines ≡ []))) ⊎ Begins s.lines
  pub kept : s.has_connections ≡ connected s.owner
  pub over : (joined s.owner ≡ false) ⊎ (rests s.looper ≡ true)
  pub alive :
      ((living s.owner ≡ false) ⊎ (s.enabled ≡ false))
      ⊎ ((s.running ≡ true) × (s.has_file ≡ true) × (goes s.looper ≡ true))
  pub listed : s.looper ≢ lost_connections
  pub only_file : (s.looper ≢ lost_file) ⊎ (s.has_file ≡ false)

pub before-IsOrdered : (enabled : Bool) → IsOrdered (before enabled)
before-IsOrdered enabled = record {
  guarded = refl;
  behind = inr refl;
  not_begun = inr refl;
  with_metrics = inr refl;
  metered = inr refl;
  opened = inl refl;
  empty = inr refl;
  begun = inl (inl refl);
  kept = refl;
  over = inl refl;
  alive = inl (inl refl);
  listed = λ e. cc e;
  only_file = inl (λ e. cc e);
}

owner_step-IsOrdered :
    (o : OwnerAt) (s : System) → s.owner ≡ o → IsOrdered s → IsOrdered (owner_step o s)
owner_step-IsOrdered making_flows s e v = ground arith
owner_step-IsOrdered making_connections s e v = ground arith
owner_step-IsOrdered opening s e v = ground arith
owner_step-IsOrdered starting s e v = ground arith
owner_step-IsOrdered writing_heading s e v = ground arith
owner_step-IsOrdered releasing s e v = ground arith
owner_step-IsOrdered in_use s e v = ground arith
owner_step-IsOrdered deleting_flows s e v = ground arith
owner_step-IsOrdered closing s e v = ground arith
owner_step-IsOrdered deleting_file s e v = ground arith
owner_step-IsOrdered stopping s e v = ground arith
owner_step-IsOrdered joining s e v = ground arith
owner_step-IsOrdered deleting_connections s e v = ground arith
owner_step-IsOrdered gone s e v = v

Begins-append : (ls : List Line) (l : Line) → Begins ls → Begins (ls ++ l ∷ [])
Begins-append [] l b = absurd b
Begins-append (heading_line ∷ ls) l b = tt
Begins-append (row_line ∷ ls) l b = absurd b

looper_step-IsOrdered :
    (more : Bool) (t : LooperAt) (s : System)
    → s.looper ≡ t
    → IsOrdered s
    → IsOrdered (looper_step more t s)
looper_step-IsOrdered more unborn s e v = v
looper_step-IsOrdered more testing s e v = ground arith
looper_step-IsOrdered more asking s e v = ground arith
looper_step-IsOrdered more listing s e v = ground arith
looper_step-IsOrdered more writing s e v = ground (arith, Begins-append s.lines row_line)
looper_step-IsOrdered more sleeping s e v = ground arith
looper_step-IsOrdered more finished s e v = v
looper_step-IsOrdered more lost_connections s e v = v
looper_step-IsOrdered more lost_file s e v = v

Step-IsOrdered : {s t : System} → Step s t → IsOrdered s → IsOrdered t
unfolding owner_move looper_move
Step-IsOrdered {s} (by_owner e) v = subst IsOrdered (sym e) (owner_step-IsOrdered s.owner s refl v)
Step-IsOrdered {s} (by_looper more e) v =
    subst IsOrdered (sym e) (looper_step-IsOrdered more s.looper s refl v)

pub Reaches-IsOrdered : {s t : System} → Reaches s t → IsOrdered s → IsOrdered t
Reaches-IsOrdered here v = v
Reaches-IsOrdered (next r st) v = Step-IsOrdered st (Reaches-IsOrdered r v)

heads : (s : System) → IsOrdered s → (s.lines ≡ []) ⊎ Begins s.lines
heads s v = ground arith

-- Whatever the steps of the thread that makes and deletes the context and of the looper of the
-- metrics: metrics.csv is empty or begins with the heading, also though the looper is started
-- before the heading is written; the looper never uses a map of connections that is not made yet
-- or is deleted; and it writes to a file that is not there only where the file is deleted.
pub heading_first :
    (enabled : Bool) (s : System)
    → Reaches (before enabled) s
    → ((s.lines ≡ []) ⊎ Begins s.lines)
      × (s.looper ≢ lost_connections)
      × ((s.looper ≢ lost_file) ⊎ (s.has_file ≡ false))
heading_first enabled s r =
    let v = Reaches-IsOrdered r (before-IsOrdered enabled) in (heads s v, v.listed, v.only_file)
