-- ===== src/Tools/Dotenv.antt =====
-- `_load_env_file` of tools/extract_fixtures.py, which tools/verify_fixtures.py has as well. The
-- environment is a dictionary, and the file its lines.
pub mod Precedence
use ai_quantum.Common.{
  ℕ, ◌==◌, if◌then◌else◌, Bool, true, false, ◌||◌, not, List, [], ◌∷◌, Option, none, some, Outcome,
  ok, err, last,
}
use ai_quantum.Common.Text.{Text, codes, text_eq, strip, starts_with}
use ai_quantum.Common.Eq.{text_eq_instance}
use ai_quantum.Common.Dict.{get, put}
use ai_quantum.Common.Dict.Keys.{has}

abbrev pub Environ : Type 0
Environ = List (Text × Text)

-- `s.strip(c)` of one character.
unfoldable pub lstrip_of : ℕ → Text → Text
lstrip_of c [] = []
lstrip_of c (d ∷ s) = if d == c then lstrip_of c s else d ∷ s

abbrev keep_unless : ℕ → ℕ → Text → Text
keep_unless c d [] = if d == c then [] else d ∷ []
keep_unless c d (e ∷ s) = d ∷ e ∷ s

unfoldable pub rstrip_of : ℕ → Text → Text
rstrip_of c [] = []
rstrip_of c (d ∷ s) = keep_unless c d (rstrip_of c s)

unfoldable pub strip_of : ℕ → Text → Text
unfolding lstrip_of rstrip_of
strip_of c s = rstrip_of c (lstrip_of c s)

-- `line.partition("=")`, without the separator; `none` where it does not occur.
abbrev before_head : ℕ → Option (Text × Text) → Option (Text × Text)
before_head c none = none
before_head c (some (head, tail)) = some (c ∷ head, tail)

unfoldable pub partition : Text → Option (Text × Text)
partition [] = none
partition (c ∷ s) =
    let rest = before_head c (partition s) in if c == b'=' then some ([], s) else rest

-- What a line says: a key and its value, or nothing where it is blank, a comment or has no `=`.
abbrev pub trimmed : Text × Text → Text × Text
trimmed (name, value) = (strip name, strip_of b'\'' (strip_of b'"' (strip value)))

abbrev pub trim_both : Option (Text × Text) → Option (Text × Text)
trim_both none = none
trim_both (some parts) = some (trimmed parts)

unfoldable pub entry_of : Text → Option (Text × Text)
unfolding strip_of partition
entry_of raw =
    let line = strip raw in
    let entry = trim_both (partition line) in
    if text_eq line [] || starts_with (codes "#") line then none else entry

-- `os.environ.setdefault(key, value)`.
unfoldable pub setdefault : Option (Text × Text) → Environ → Environ
setdefault none environ = environ
setdefault (some (name, value)) environ =
    if has name environ then environ else put name value environ

unfoldable pub load_lines : List Text → Environ → Environ
unfolding setdefault entry_of
load_lines [] environ = environ
load_lines (raw ∷ rest) environ = load_lines rest (setdefault (entry_of raw) environ)

-- `none` where `.env` is not a file.
unfoldable pub load_env_file : Option (List Text) → Environ → Environ
unfolding load_lines
load_env_file none environ = environ
load_env_file (some lines) environ = load_lines lines environ

-- `_get_api_key` of tools/extract_fixtures.py: `none` is its exit.
abbrev pub text_or_empty : Option Text → Text
text_or_empty none = []
text_or_empty (some s) = s

-- `os.environ.get("ETHERSCAN_API_KEY", "").strip()`.
unfoldable pub api_key_in : Environ → Text
api_key_in environ = strip (text_or_empty (get (codes "ETHERSCAN_API_KEY") environ))

abbrev pub unless_empty : Text → Option Text
unless_empty [] = none
unless_empty (c ∷ s) = some (c ∷ s)

unfoldable pub get_api_key : Option (List Text) → Environ → Option Text
unfolding load_env_file api_key_in
get_api_key env_file environ = unless_empty (api_key_in (load_env_file env_file environ))
