-- ===== src/Tools/VerifyFixtures/Main.antt =====
-- `main` of tools/verify_fixtures.py. The files are the sorted listing of the directory; a file that
-- cannot be opened or read has no content. What is printed is left out.
pub mod Verdict
use ai_quantum.Common.{
  ℕ, Bool, not, List, [], ◌∷◌, Option, none, some, Outcome, ok, err, if◌then◌else◌,
}
use ai_quantum.Common.Text.{Text, text_eq}
use ai_quantum.Ingestion.Event.{TickDataEvent}
use ai_quantum.Tools.MockWss.Fixture.{Raw}
use ai_quantum.Tools.Dotenv.{Environ, load_env_file, api_key_in}
use ai_quantum.Tools.VerifyFixtures.{VerifyError, verify_file}
use ai_quantum.Tools.VerifyFixtures.OnChain.{
  Reply, Failure, refused, unreadable, Counted, cross_check,
}

pub record File : Type 0 where
  pub name : Text
  pub content : Option (List Raw)

abbrev pub note : Text → Outcome Failure (Unit {0}) → List (Text × Failure) → List (Text × Failure)
note name (ok done) failures = failures
note name (err e) failures = (name, e) ∷ failures

abbrev pub exit_status : List (Text × Failure) → ℕ
exit_status [] = 0
exit_status (failure ∷ failures) = 1

module _ (valid : TickDataEvent → Bool) (sample : List TickDataEvent → ℕ → List TickDataEvent)
    (respond : ℕ → Text → Reply) where
  abbrev pub then_cross_check :
      Bool → ℕ → Outcome VerifyError (List TickDataEvent) → Counted (Unit {0})
  then_cross_check has_key calls (err e) = (err (refused e), calls)
  then_cross_check has_key calls (ok rows) =
      let checked = cross_check respond sample calls rows in
      if has_key then checked else (ok tt, calls)

  -- The body of the loop's `try`.
  unfoldable pub check_file : Bool → ℕ → Option (List Raw) → Counted (Unit {0})
  unfolding verify_file cross_check
  check_file has_key calls none = (err unreadable, calls)
  check_file has_key calls (some raws) = then_cross_check has_key calls (verify_file valid raws)

  -- The loop: the failures, each with its file.
  unfoldable pub failures_of : Bool → ℕ → List File → List (Text × Failure)
  unfolding check_file
  failures_of has_key calls [] = []
  failures_of has_key calls (file ∷ files) =
      let (result, calls') = check_file has_key calls file.content in
      note file.name result (failures_of has_key calls' files)

  abbrev pub verdict : Bool → List File → ℕ
  verdict has_key [] = 1
  verdict has_key (file ∷ files) = exit_status (failures_of has_key 0 (file ∷ files))

  -- The exit status, from the `.env` file and the process's environment.
  unfoldable pub main : Option (List Text) → Environ → List File → ℕ
  unfolding load_env_file api_key_in
  main env_file environ files =
      let key = api_key_in (load_env_file env_file environ) in verdict (not (text_eq key [])) files
