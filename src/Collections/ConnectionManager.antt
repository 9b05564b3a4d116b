-- ===== src/Collections/ConnectionManager.antt =====
-- src/collections/ConnectionManager.h and ConnectionManager.cpp: the connections by descriptor. Both
-- methods hold the mutex.
use multipath_proxy.Prelude.{
  ℕ, ◌≡◌, ap, List, [], ◌∷◌, Option, none, some, ◌==◌, if◌then◌else◌, arith,
}

-- A pointer to a connection is a number.
abbrev pub ConnectionManager : Type 0
ConnectionManager = List (ℕ × ℕ)

-- find(fd)
abbrev pub find : ℕ → ConnectionManager → Option ℕ
find fd [] = none
find fd ((g, c) ∷ m) = if g == fd then some c else find fd m

abbrev keep_or_add : ℕ → ℕ → ConnectionManager → Option ℕ → ConnectionManager
keep_or_add fd c m none = (fd, c) ∷ m
keep_or_add fd c m (some _) = m

-- Insert: insert() keeps the connection that has the descriptor already.
unfoldable pub insert : ℕ → ℕ → ConnectionManager → ConnectionManager
insert fd c m = keep_or_add fd c m (find fd m)

-- Erase
unfoldable pub erase : ℕ → ConnectionManager → ConnectionManager
erase fd [] = []
erase fd ((g, c) ∷ m) = let rest = erase fd m in if g == fd then rest else (g, c) ∷ rest

pub find-erase :
    (fd g : ℕ) (m : ConnectionManager) → find g (erase fd m) ≡ (if fd == g then none else find g m)
unfolding erase
find-erase fd g [] = ground arith
find-erase fd g ((h, c) ∷ m) = ground (arith, find-erase fd g m)

pub find-insert :
    (fd c g : ℕ) (m : ConnectionManager)
    → find fd m ≡ none
    → find g (insert fd c m) ≡ (if fd == g then some c else find g m)
unfolding insert
find-insert fd c g m e = ap (λ o. find g (keep_or_add fd c m o)) e

pub insert_again : (fd c d : ℕ) (m : ConnectionManager) → find fd m ≡ some d → insert fd c m ≡ m
unfolding insert
insert_again fd c d m e = ap (keep_or_add fd c m) e
