-- ===== src/Args.antt =====
-- src/args/Args.h and Args.cpp: the options of the program. getopt_long is outside: its results, each
-- with optarg, are a list.
pub mod Last
use Prim.Native.Nat.{ℕ}
use multipath_proxy.Prelude.{
  Bool, true, false, List, [], ◌∷◌, Option, none, some, ◌==◌, ◌&&◌, if◌then◌else◌,
}
use multipath_proxy.Outcome.{Outcome, done, throws, fault, null_pointer, ◌>>=◌, or_fault}
use multipath_proxy.Text.{Text, codes}

-- enum class mode
pub data Mode : Type 0 where
  local remote : Mode

-- The variables of the namespace.
pub record Args : Type 0 where
  pub mode : Mode
  pub ter_enabled : Bool
  pub ter : Text
  pub sat_enabled : Bool
  pub sat : Text
  pub proxy : Text
  pub heartbeat_enabled : Bool
  pub metrics_enabled : Bool

abbrev pub initial : Args
initial = record {
  mode = local;
  ter_enabled = false;
  ter = [];
  sat_enabled = false;
  sat = [];
  proxy = [];
  heartbeat_enabled = false;
  metrics_enabled = false;
}

-- What getopt_long returns, and optarg, which is null for an option without an argument.
abbrev pub Parsed : Type 0
Parsed = ℕ × Option Text

abbrev pub same_text : Text → Text → Bool
same_text [] [] = true
same_text (a ∷ s) (b ∷ t) = let rest = same_text s t in a == b && rest
same_text _ _ = false

-- MODE, from the name of the program.
abbrev pub mode_of : Text → Mode
mode_of argv0 = if same_text argv0 (codes "remote") then remote else local

-- The letters of the options.
abbrev pub letter_r : ℕ
letter_r = 114

abbrev pub letter_l : ℕ
letter_l = 108

abbrev pub letter_t : ℕ
letter_t = 116

abbrev pub letter_s : ℕ
letter_s = 115

abbrev pub letter_p : ℕ
letter_p = 112

abbrev pub letter_b : ℕ
letter_b = 98

abbrev pub letter_m : ℕ
letter_m = 109

-- A string is assigned from optarg.
abbrev pub with_text : Option Text → (Text → Args) → Outcome Args
with_text none set = fault null_pointer
with_text (some text) set = done (set text)

-- The switch. Any other result changes nothing.
unfoldable pub set_option : Args → Parsed → Outcome Args
set_option a (c, arg) =
    if c == letter_r
    then done (record a { mode = remote })
    else if c == letter_l
    then done (record a { mode = local })
    else if c == letter_t
    then with_text arg (λ text. record a { ter_enabled = true; ter = text })
    else if c == letter_s
    then with_text arg (λ text. record a { sat_enabled = true; sat = text })
    else if c == letter_p
    then with_text arg (λ text. record a { proxy = text })
    else if c == letter_b
    then done (record a { heartbeat_enabled = true })
    else if c == letter_m
    then done (record a { metrics_enabled = true })
    else done a

-- The loop.
unfoldable pub set_options : Args → List Parsed → Outcome Args
set_options a [] = done a
set_options a (o ∷ os) = do b ← set_option a o; set_options b os

-- What init comes to: exit, or the arguments.
pub data Start : Type 0 where
  exits : ℕ → Start
  starts : Args → Start

-- MODE == mode::LOCAL && PROXY.empty()
abbrev pub lacks_proxy : Args → Bool
lacks_proxy a = elim a.mode [
  | local ↦ elim a.proxy [ [] ↦ true | ◌∷◌ _ _ ↦ false ]
  | remote ↦ false
]

-- init
unfoldable pub init : Text → List Parsed → Outcome Start
init argv0 os = do
  a ← set_options (record initial { mode = mode_of argv0 }) os
  done (if lacks_proxy a then exits 0 else starts a)
