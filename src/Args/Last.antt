-- ===== src/Args/Last.antt =====
-- Of an option that is given more than once the last one counts (src/args/Args.cpp).
use multipath_proxy.Prelude.{
  ℕ, ◌≡◌, ◌≢◌, refl, ap, ◌∙◌, Bool, false, List, [], ◌∷◌, none, some, ◌==◌, ◌||◌, if◌then◌else◌,
  arith,
}
use multipath_proxy.Outcome.{done, ◌>>=◌}
use multipath_proxy.Text.{Text}
use multipath_proxy.Args.{
  Args, Mode, local, remote, Parsed, set_option, set_options, letter_r, letter_l, letter_t,
  letter_s, letter_p, letter_b, letter_m, init, initial, mode_of, lacks_proxy, exits, starts,
}

-- The argument of the last option with the letter, or else the text that is there.
abbrev pub last_argument : ℕ → Text → List Parsed → Text
last_argument c text [] = text
last_argument c text ((d, none) ∷ os) = last_argument c text os
last_argument c text ((d, some arg) ∷ os) = last_argument c (if d == c then arg else text) os

abbrev pub is_given : ℕ → List Parsed → Bool
is_given c [] = false
is_given c ((d, arg) ∷ os) = let rest = is_given c os in d == c || rest

abbrev pub last_mode : Mode → List Parsed → Mode
last_mode m [] = m
last_mode m ((d, arg) ∷ os) =
    last_mode (if d == letter_r then remote else if d == letter_l then local else m) os

-- Each variable by itself, from all options.
abbrev pub summary : Args → List Parsed → Args
summary a os = record {
  mode = last_mode a.mode os;
  ter_enabled = a.ter_enabled || is_given letter_t os;
  ter = last_argument letter_t a.ter os;
  sat_enabled = a.sat_enabled || is_given letter_s os;
  sat = last_argument letter_s a.sat os;
  proxy = last_argument letter_p a.proxy os;
  heartbeat_enabled = a.heartbeat_enabled || is_given letter_b os;
  metrics_enabled = a.metrics_enabled || is_given letter_m os;
}

-- Every -t, -s and -p has an argument.
abbrev pub HasArguments : List Parsed → Type 0
HasArguments [] = Unit {0}
HasArguments ((d, none) ∷ os) = (d ≢ letter_t) × (d ≢ letter_s) × (d ≢ letter_p) × HasArguments os
HasArguments ((d, some _) ∷ os) = HasArguments os

set_option-summary :
    (a : Args) (o : Parsed) → HasArguments (o ∷ []) → set_option a o ≡ done (summary a (o ∷ []))
unfolding set_option
set_option-summary a (d, none) h = ground (arith, h.0)
set_option-summary a (d, some text) h = ground arith

or_given : (a b c : Bool) → ((a || (b || false)) || c) ≡ (a || (b || c))
or_given a b c = ground arith

summary-summary :
    (a : Args) (o : Parsed) (os : List Parsed)
    → summary (summary a (o ∷ [])) os ≡ summary a (o ∷ os)
summary-summary a (d, none) os =
    rw
      (
        or_given a.ter_enabled (d == letter_t) (is_given letter_t os),
        or_given a.sat_enabled (d == letter_s) (is_given letter_s os),
        or_given a.heartbeat_enabled (d == letter_b) (is_given letter_b os),
        or_given a.metrics_enabled (d == letter_m) (is_given letter_m os),
      )
      refl
summary-summary a (d, some text) os =
    rw
      (
        or_given a.ter_enabled (d == letter_t) (is_given letter_t os),
        or_given a.sat_enabled (d == letter_s) (is_given letter_s os),
        or_given a.heartbeat_enabled (d == letter_b) (is_given letter_b os),
        or_given a.metrics_enabled (d == letter_m) (is_given letter_m os),
      )
      refl

head-HasArguments :
    (o : Parsed) (os : List Parsed)
    → HasArguments (o ∷ os)
    → HasArguments (o ∷ []) × HasArguments os
head-HasArguments (d, none) os (t, s, p, rest) = ((t, s, p, tt), rest)
head-HasArguments (d, some text) os h = (tt, h)

pub set_options-summary :
    (a : Args) (os : List Parsed) → HasArguments os → set_options a os ≡ done (summary a os)
unfolding set_options
set_options-summary a [] h = ground arith
set_options-summary a (o ∷ os) h =
    let (now, later) = head-HasArguments o os h in
    rw (set_option-summary a o now) (
      set_options-summary (summary a (o ∷ [])) os later ∙ ap (λ b. done b) (summary-summary a o os))

-- Where every -t, -s and -p has an argument, init gives for each variable what the last option for
-- it says, or the initial value, and exits if the mode is local without a proxy.
pub init-summary :
    (argv0 : Text) (os : List Parsed)
    → HasArguments os
    → init argv0 os
      ≡ done (
          let a = summary (record initial { mode = mode_of argv0 }) os in
          if lacks_proxy a then exits 0 else starts a)
unfolding init
init-summary argv0 os h =
    ap (λ o. o >>= λ a. done (if lacks_proxy a then exits 0 else starts a))
      (set_options-summary (record initial { mode = mode_of argv0 }) os h)
