-- ===== src/Emitter/Registry.antt =====
-- emitter/registry.py: the subscriber set and its file. `json.dumps` of a list of texts is the
-- constructor `saved`; a file that is not JSON is `no_json`, and JSON that cannot
-- be iterated, as `42` or `null`, is `no_list`. JSON of other members than texts, and a path that the
-- file system refuses to read or write, are left out.
pub mod Restart
use ai_quantum.Common.{
  Outcome, ok, err, ℕ, Bool, true, false, List, [], ◌∷◌, Option, none, some, ◌==◌, ltb, leb,
  if◌then◌else◌, length,
}
use ai_quantum.Common.Text.{Text}
use ai_quantum.Common.Eq.{text_eq_instance}
use ai_quantum.Common.Set.{contains, add, discard, of_list, sorted}

pub data File : Type 0 where
  missing no_json no_list : File
  saved : List Text → File

-- `subs` is `self._subs`. The file is there if a path was given.
pub record SubscriberRegistry : Type 0 where
  pub file : Option File
  pub subs : List Text

-- The order of `str`: by code point.
unfoldable pub text_le : Text → Text → Bool
text_le [] t = true
text_le (a ∷ s) [] = false
text_le (a ∷ s) (b ∷ t) = if a == b then text_le s t else ltb a b

pub data TypeError : Type 0 where
  not_iterable : TypeError

-- `__init__`.
unfoldable pub load : Option File → Outcome TypeError SubscriberRegistry
load (some (saved urls)) = ok (record { file = some (saved urls); subs = of_list urls })
load (some no_list) = err not_iterable
load file = ok (record { file = file; subs = [] })

-- `all`.
unfoldable pub all : SubscriberRegistry → List Text
all r = sorted text_le r.subs

-- `_save`.
save : SubscriberRegistry → SubscriberRegistry
save r = elim r.file [
  | none ↦ r
  | some old ↦ record r { file = some (saved (sorted text_le r.subs)) }
]

unfoldable pub add_url : Text → SubscriberRegistry → SubscriberRegistry
unfolding save
add_url url r = save (record r { subs = add url r.subs })

unfoldable pub remove_url : Text → SubscriberRegistry → SubscriberRegistry
unfolding save
remove_url url r = save (record r { subs = discard url r.subs })

-- `__contains__` and `__len__`.
unfoldable pub has : Text → SubscriberRegistry → Bool
has url r = contains url r.subs

pub len : SubscriberRegistry → ℕ
len r = length r.subs
