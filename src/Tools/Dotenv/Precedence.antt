-- ===== src/Tools/Dotenv/Precedence.antt =====
-- Which value of a variable counts.
use ai_quantum.Common.{
  or_else, or_else-none, ◌≡◌, refl, sym, ◌∙◌, if◌then◌else◌, Bool-cases, inl, inr, true, false,
  List, [], ◌∷◌, Option, none, some,
}
use ai_quantum.Common.Text.{Text, text_eq, text_eq_iff}
use ai_quantum.Common.Eq.{text_eq_instance}
use ai_quantum.Common.Dict.{get, put, get-put}
use ai_quantum.Common.Dict.Keys.{has, get-has, get-missing}
use ai_quantum.Tools.Dotenv.{Environ, entry_of, setdefault, load_lines, load_env_file}

-- The value of the first line that names the variable.
abbrev pub named : Text → Option (Text × Text) → Option Text
named name none = none
named name (some (key, value)) = if text_eq key name then some value else none

abbrev pub first_value : Text → List Text → Option Text
first_value name [] = none
first_value name (raw ∷ rest) = or_else (named name (entry_of raw)) (first_value name rest)

kept :
    (name key value : Text) (environ : Environ)
    → has key environ ≡ true
    → get name environ ≡ or_else (get name environ) (if text_eq key name then some value else none)
kept name key value environ h = elim (Bool-cases (text_eq key name)) [
  | inr other ↦ rw other (sym (or_else-none (get name environ)))
  | inl same ↦
      let equal : key ≡ name = (text_eq_iff key name).0 same in
      let (v, g) = get-has name environ (rw equal at h) in rw g refl
]

added :
    (name key value : Text) (environ : Environ)
    → has key environ ≡ false
    → get name (put key value environ)
      ≡ or_else (get name environ) (if text_eq key name then some value else none)
added name key value environ h = elim (Bool-cases (text_eq key name)) [
  | inr other ↦ get-put key name value environ ∙ rw other (sym (or_else-none (get name environ)))
  | inl same ↦
      let equal : key ≡ name = (text_eq_iff key name).0 same in
      get-put key name value environ ∙ rw (same, get-missing name environ (rw equal at h)) refl
]

get-setdefault :
    (name : Text) (entry : Option (Text × Text)) (environ : Environ)
    → get name (setdefault entry environ) ≡ or_else (get name environ) (named name entry)
unfolding setdefault
get-setdefault name none environ = sym (or_else-none (get name environ))
get-setdefault name (some (key, value)) environ = elim (Bool-cases (has key environ)) [
  | inl old ↦ rw old (kept name key value environ old)
  | inr new ↦ rw new (added name key value environ new)
]

or_else_assoc : (a b c : Option Text) → or_else (or_else a b) c ≡ or_else a (or_else b c)
or_else_assoc none b c = refl
or_else_assoc (some v) b c = refl

load_lines_lem :
    (name : Text) (lines : List Text) (environ : Environ)
    → get name (load_lines lines environ) ≡ or_else (get name environ) (first_value name lines)
unfolding load_lines
load_lines_lem name [] environ = sym (or_else-none (get name environ))
load_lines_lem name (raw ∷ rest) environ =
    load_lines_lem name rest (setdefault (entry_of raw) environ)
    ∙ rw (get-setdefault name (entry_of raw) environ)
        (or_else_assoc (get name environ) (named name (entry_of raw)) (first_value name rest))

abbrev pub lines_of : Option (List Text) → List Text
lines_of none = []
lines_of (some lines) = lines

-- After the file is loaded, a variable has the value the process gave it; where it gave none, that
-- of the first line of the file that names the variable, which a missing file, a blank
-- line, a comment and a line without an equals sign do not.
pub load_env_file_lem :
    (name : Text) (env_file : Option (List Text)) (environ : Environ)
    → get name (load_env_file env_file environ)
      ≡ or_else (get name environ) (first_value name (lines_of env_file))
unfolding load_env_file
load_env_file_lem name none environ = sym (or_else-none (get name environ))
load_env_file_lem name (some lines) environ = load_lines_lem name lines environ
