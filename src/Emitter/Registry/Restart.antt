-- ===== src/Emitter/Registry/Restart.antt =====
-- What the registry answers, before and after a restart of the process.
use ai_quantum.Common.{
  ◌≡◌, refl, ◌∙◌, ap, Bool, true, false, not, ◌&&◌, ◌||◌, List, [], ◌∷◌, some, ok, Option-cases,
  arith,
}
use ai_quantum.Common.Text.{Text}
use ai_quantum.Common.Eq.{text_eq_instance, eqb}
use ai_quantum.Common.Set.{
  of_list, contains, contains-add, contains-discard, contains-of_list, contains-sorted, sorted,
  IsSorted, sorted-IsSorted,
}
use ai_quantum.Emitter.Registry.{
  File, missing, no_json, no_list, saved, SubscriberRegistry, text_le, load, all, save, add_url,
  remove_url, has,
}

-- The calls that change the registry.
pub data Change : Type 0 where
  add : Text → Change
  remove : Text → Change

unfoldable pub apply : Change → SubscriberRegistry → SubscriberRegistry
apply (add url) r = add_url url r
apply (remove url) r = remove_url url r

unfoldable pub run : List Change → SubscriberRegistry → SubscriberRegistry
unfolding apply
run [] r = r
run (c ∷ cs) r = run cs (apply c r)

-- Whether a URL is subscribed after the changes, by the last change that names it.
pub subscribed : Bool → List Change → Text → Bool
subscribed before [] url = before
subscribed before (add u ∷ cs) url = subscribed (eqb u url || before) cs url
subscribed before (remove u ∷ cs) url = subscribed (not (eqb u url) && before) cs url

has-add_url :
    (u url : Text) (r : SubscriberRegistry) → has url (add_url u r) ≡ (eqb u url || has url r)
unfolding has add_url
has-add_url u url r = ground (arith, contains-add u url r.subs, Option-cases r.file)

has-remove_url :
    (u url : Text) (r : SubscriberRegistry)
    → has url (remove_url u r) ≡ (not (eqb u url) && has url r)
unfolding has remove_url
has-remove_url u url r = ground (arith, contains-discard u url r.subs, Option-cases r.file)

has-run :
    (cs : List Change) (r : SubscriberRegistry) (url : Text)
    → has url (run cs r) ≡ subscribed (has url r) cs url
unfolding run subscribed
has-run [] r url = refl
has-run (add u ∷ cs) r url =
    has-run cs (add_url u r) url ∙ ap (λ (b : Bool). subscribed b cs url) (has-add_url u url r)
has-run (remove u ∷ cs) r url =
    has-run cs (remove_url u r) url
    ∙ ap (λ (b : Bool). subscribed b cs url) (has-remove_url u url r)

text_le_total : (s t : Text) → text_le s t ≡ false → text_le t s ≡ true
unfolding text_le
text_le_total [] t h = cc h
text_le_total (a ∷ s) [] h = refl
text_le_total (a ∷ s) (b ∷ t) h = ground (arith, text_le_total s t)

text_le_trans : (s t u : Text) → text_le s t ≡ true → text_le t u ≡ true → text_le s u ≡ true
unfolding text_le
text_le_trans [] t u h k = refl
text_le_trans (a ∷ s) [] u h k = cc h
text_le_trans (a ∷ s) (b ∷ t) [] h k = cc k
text_le_trans (a ∷ s) (b ∷ t) (c ∷ u) h k = ground (arith, text_le_trans s t u)

-- A new process that loads the file gives the registry's answers.
abbrev pub Reloads : SubscriberRegistry → Text → Type 0
Reloads r url = (r' : SubscriberRegistry) × (load r.file ≡ ok r') × (has url r' ≡ has url r)

-- A registry with a file, which holds what the registry answers.
record IsSaved (r : SubscriberRegistry) : Type 0 where
  kept : (f : File) × (r.file ≡ some f)
  answers : (url : Text) → Reloads r url

load-kept : (f : File) (r : SubscriberRegistry) → load (some f) ≡ ok r → r.file ≡ some f
unfolding load
load-kept missing r h = let e : record { file = some missing; subs = [] } ≡ r = cc h in cc e
load-kept no_json r h = let e : record { file = some no_json; subs = [] } ≡ r = cc h in cc e
load-kept no_list r h = cc h
load-kept (saved urls) r h =
    let e : record { file = some (saved urls); subs = of_list urls } ≡ r = cc h in cc e

load-IsSaved : (f : File) (r : SubscriberRegistry) → load (some f) ≡ ok r → IsSaved r
load-IsSaved f r h = record {
  kept = (f, load-kept f r h);
  answers = λ url. (r, ap load (load-kept f r h) ∙ h, refl);
}

has-load_saved :
    (url : Text) (subs : List Text)
    → Reloads (record { file = some (saved (sorted text_le subs)); subs = subs }) url
unfolding has load
has-load_saved url subs = (
  record { file = some (saved (sorted text_le subs)); subs = of_list (sorted text_le subs) },
  refl,
  contains-of_list url (sorted text_le subs) ∙ contains-sorted text_le url subs,
)

save-IsSaved :
    (f : File) (subs : List Text) → IsSaved (save (record { file = some f; subs = subs }))
unfolding save
save-IsSaved f subs = record {
  kept = (saved (sorted text_le subs), refl);
  answers = λ url. has-load_saved url subs;
}

apply-IsSaved : (c : Change) (r : SubscriberRegistry) → IsSaved r → IsSaved (apply c r)
unfolding apply add_url remove_url
apply-IsSaved (add u) r v = let (f, e) = v.kept in rw e (save-IsSaved f _)
apply-IsSaved (remove u) r v = let (f, e) = v.kept in rw e (save-IsSaved f _)

run-IsSaved : (cs : List Change) (r : SubscriberRegistry) → IsSaved r → IsSaved (run cs r)
unfolding run
run-IsSaved [] r v = v
run-IsSaved (c ∷ cs) r v = run-IsSaved cs (apply c r) (apply-IsSaved c r v)

-- With a path at which there is no file, a file that is not JSON or a file of texts, so that
-- the registry is built, after any subscriptions and removals: the registry answers for every URL by
-- the last change that names it, `all` lists exactly those URLs in order, and a new process loads the
-- file without a TypeError and gives the same answers.
pub registry_survives_restart :
    (f : File) (start : SubscriberRegistry) (cs : List Change) (url : Text)
    → load (some f) ≡ ok start
    → let r = run cs start in
      (has url r ≡ subscribed (has url start) cs url)
      × (contains url (all r) ≡ has url r)
      × IsSorted text_le (all r)
      × Reloads r url
unfolding all has
registry_survives_restart f start cs url loads = (
  has-run cs start url,
  contains-sorted text_le url (run cs start).subs,
  sorted-IsSorted text_le text_le_total text_le_trans (run cs start).subs,
  (run-IsSaved cs start (load-IsSaved f start loads)).answers url,
)
