-- ===== src/Context/Deletion.antt =====
-- The deletion of the context under the looper of the metrics (src/context/Context.cpp,
-- src/metrics/Metrics.cpp).
use mathlib.Core.Bool.{Bool, true}
use multipath_proxy.Prelude.{List, [], ◌∷◌, ◌++◌, ◌≡◌, refl, ap, ◌∙◌, arith}
use multipath_proxy.Context.{
  OwnerAt, in_use, LooperAt, unborn, testing, asking, listing, writing, sleeping, finished,
  lost_connections, lost_file, System, before, owner_step, looper_step, owner_move, looper_move,
  by_owner, by_looper, Reaches, here, next,
}
use multipath_proxy.Context.Order.{IsOrdered, before-IsOrdered, Reaches-IsOrdered}

-- A schedule, which says whose move is next, and for the looper whether there is a connection to
-- write a row for.
pub data Turn : Type 0 where
  owner_turn : Turn
  looper_turn : Bool → Turn

unfoldable pub drive : List Turn → System → System
drive [] s = s
drive (owner_turn ∷ ts) s = drive ts (owner_move s)
drive (looper_turn more ∷ ts) s = drive ts (looper_move more s)

pub drive-Reaches :
    {s : System} (ts : List Turn) (t : System) → Reaches s t → Reaches s (drive ts t)
unfolding drive
drive-Reaches [] t r = r
drive-Reaches (owner_turn ∷ ts) t r = drive-Reaches ts (owner_move t) (next r (by_owner refl))
drive-Reaches (looper_turn more ∷ ts) t r =
    drive-Reaches ts (looper_move more t) (next r (by_looper more refl))

enabled-owner_step : (o : OwnerAt) (s : System) → (owner_step o s).enabled ≡ s.enabled
enabled-owner_step o s = ground arith

enabled-looper_step :
    (more : Bool) (t : LooperAt) (s : System) → (looper_step more t s).enabled ≡ s.enabled
enabled-looper_step more t s = ground arith

enabled_stays : {s t : System} → Reaches s t → s.enabled ≡ true → t.enabled ≡ true
unfolding owner_move looper_move
enabled_stays here e = e
enabled_stays (next {t} r (by_owner f)) e =
    ap (λ (u : System). u.enabled) f ∙ enabled-owner_step t.owner t ∙ enabled_stays r e
enabled_stays (next {t} r (by_looper more f)) e =
    ap (λ (u : System). u.enabled) f ∙ enabled-looper_step more t.looper t ∙ enabled_stays r e

-- The looper up to a row, and the owner up to the deletion of the file.
abbrev to_the_row : LooperAt → List Turn
to_the_row testing = looper_turn true ∷ looper_turn true ∷ looper_turn true ∷ []
to_the_row asking = looper_turn true ∷ looper_turn true ∷ []
to_the_row listing = looper_turn true ∷ []
to_the_row sleeping = looper_turn true ∷ looper_turn true ∷ looper_turn true ∷ looper_turn true ∷ []
to_the_row _ = []

abbrev destruction : List Turn
destruction = owner_turn ∷ owner_turn ∷ owner_turn ∷ owner_turn ∷ looper_turn true ∷ []

crashes_from :
    (t : LooperAt) (s : System)
    → IsOrdered s
    → s.owner ≡ in_use
    → s.enabled ≡ true
    → s.looper ≡ t
    → (drive (to_the_row t ++ destruction) s).looper ≡ lost_file
unfolding drive owner_move looper_move
crashes_from unborn s v o m e = absurd (ground arith)
crashes_from testing s v o m e = ground arith
crashes_from asking s v o m e = ground arith
crashes_from listing s v o m e = ground arith
crashes_from writing s v o m e = ground arith
crashes_from sleeping s v o m e = ground arith
crashes_from finished s v o m e = absurd (ground arith)
crashes_from lost_connections s v o m e = absurd (ground arith)
crashes_from lost_file s v o m e = absurd (ground arith)

-- From any state in which a context with metrics is in use there is an order of steps in which
-- ~Context() deletes the file of the metrics and their looper then writes to it.
pub can_crash :
    (s : System)
    → Reaches (before true) s
    → s.owner ≡ in_use
    → (ts : List Turn) × ((drive ts s).looper ≡ lost_file)
can_crash s r o =
    let v = Reaches-IsOrdered r (before-IsOrdered true) in
    (to_the_row s.looper ++ destruction, crashes_from s.looper s v o (enabled_stays r refl) refl)
