-- ===== src/Action.antt =====
-- Calls that change a state: what they come to (Outcome.antt) and the state behind them. An exception
-- keeps the changes that were made before it.
use multipath_proxy.Outcome.{Outcome, done, throws, fault}

abbrev pub Action : Type 0 → Type 0 → Type 0
Action S A = S → Outcome A × S

abbrev pub pure : {S A : Type 0} → A → Action S A
pure a s = (done a, s)

-- The rest of a call.
abbrev pub go_on : {S A B : Type 0} → Outcome A × S → (A → Action S B) → Outcome B × S
go_on (done a, s) f = f a s
go_on (throws e, s) f = (throws e, s)
go_on (fault x, s) f = (fault x, s)

infixl 5 ◌>>=◌ ◌>>◌
abbrev pub ◌>>=◌ : {S A B : Type 0} → Action S A → (A → Action S B) → Action S B
◌>>=◌ m f s = go_on (m s) f

abbrev pub ◌>>◌ : {S B : Type 0} → Action S (Unit {0}) → Action S B → Action S B
m >> k = m >>= λ _. k

-- An object whose constructor throws: what is constructed of it is destroyed, and the exception goes
-- on.
abbrev pub unwind : {S A : Type 0} → Outcome A × S → (S → S) → Outcome A × S
unwind (done a, s) destroy = (done a, s)
unwind (throws e, s) destroy = (throws e, destroy s)
unwind (fault x, s) destroy = (fault x, s)

abbrev pub or_destroy : {S A : Type 0} → Action S A → (S → S) → Action S A
or_destroy m destroy s = unwind (m s) destroy
