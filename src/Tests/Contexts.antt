-- ===== src/Tests/Contexts.antt =====
-- The theorems on the context at concrete inputs.
use multipath_proxy.Prelude.{◌≡◌, ◌≢◌, refl, ◌⊎◌, List, [], ◌∷◌, true, false}
use multipath_proxy.Context.{
  before, heading_line, row_line, owner_move, looper_move, lost_connections, lost_file, here,
}
use multipath_proxy.Context.Order.{Begins, heading_first}
use multipath_proxy.Context.Deletion.{
  Turn, owner_turn, looper_turn, drive, drive-Reaches, can_crash,
}

-- The looper moves as early as it can, and then writes a row.
abbrev some_turns : List Turn
some_turns =
    owner_turn
    ∷ owner_turn
    ∷ owner_turn
    ∷ owner_turn
    ∷ looper_turn true
    ∷ looper_turn true
    ∷ owner_turn
    ∷ owner_turn
    ∷ looper_turn true
    ∷ looper_turn true
    ∷ looper_turn true
    ∷ []

some_lines : (drive some_turns (before true)).lines ≡ heading_line ∷ row_line ∷ []
unfolding drive owner_move looper_move
some_lines = refl

heading_first_example :
    (((drive some_turns (before true)).lines ≡ []) ⊎ Begins (drive some_turns (before true)).lines)
    × ((drive some_turns (before true)).looper ≢ lost_connections)
    × (((drive some_turns (before true)).looper ≢ lost_file)
        ⊎ ((drive some_turns (before true)).has_file ≡ false))
heading_first_example =
    heading_first true (drive some_turns (before true))
      (drive-Reaches some_turns (before true) here)

can_crash_example :
    (ts : List Turn) × ((drive ts (drive some_turns (before true))).looper ≡ lost_file)
unfolding drive owner_move looper_move
can_crash_example =
    can_crash (drive some_turns (before true)) (drive-Reaches some_turns (before true) here) refl
