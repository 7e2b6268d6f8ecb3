-- ===== src/Tools/VerifyFixtures/Main/Verdict.antt =====
-- When the gate of tools/verify_fixtures.py says yes.
use ai_quantum.Common.{
  ℕ, min, length, ◌≡◌, ◌≢◌, ◌↔◌, refl, subst, Bool, Outcome, Outcome-cases, inl, inr, true, false,
  not, List, [], ◌∷◌, Option, none, some, ok, err, arith,
}
use ai_quantum.Common.Text.{Text, text_eq}
use ai_quantum.Common.Dict.Keys.{All}
use ai_quantum.Ingestion.Event.{TickDataEvent}
use ai_quantum.Tools.MockWss.Fixture.{Raw}
use ai_quantum.Tools.MockWss.Fixture.Loaded.{AreCast}
use ai_quantum.Tools.Dotenv.{Environ, load_env_file, api_key_in}
use ai_quantum.Tools.VerifyFixtures.{verify_file}
use ai_quantum.Tools.VerifyFixtures.Quality.{IsGood, verify_file-IsGood}
use ai_quantum.Tools.VerifyFixtures.OnChain.{Reply, Failure, refused, sample_size, cross_check}
use ai_quantum.Tools.VerifyFixtures.OnChain.Honest.{
  Standing, IsHonest, IsOnChain, check_sample-IsOnChain,
}
use ai_quantum.Tools.VerifyFixtures.Main.{
  File, then_cross_check, check_file, note, failures_of, verdict, exit_status, main,
}

-- Whether a key is set, in the environment or else in the file, to more than blanks.
unfoldable pub has_api_key : Option (List Text) → Environ → Bool
unfolding load_env_file api_key_in
has_api_key env_file environ = not (text_eq (api_key_in (load_env_file env_file environ)) [])

module _ (valid : TickDataEvent → Bool) (sample : List TickDataEvent → ℕ → List TickDataEvent)
    (respond : ℕ → Text → Reply) (chain : Text → Standing) where
  abbrev pub sampled : List TickDataEvent → List TickDataEvent
  sampled rows = sample rows (min sample_size (length rows))

  -- The file can be read, its rows are good, and with a key those sampled are on the chain.
  pub record IsPassed (has_key : Bool) (content : Option (List Raw)) : Type 0 where
    pub raws : List Raw
    pub rows : List TickDataEvent
    pub read : content ≡ some raws
    pub cast : AreCast raws rows
    pub good : IsGood valid rows
    pub on_chain : has_key ≡ true → All (IsOnChain chain) (sampled rows)

  module _ (honest : IsHonest chain respond) where
    then_cross_check-ok :
        (has_key : Bool) (calls : ℕ) (rows : List TickDataEvent)
        → ((then_cross_check valid sample respond has_key calls (ok rows)).0 ≡ ok tt)
          ↔ (has_key ≡ true → All (IsOnChain chain) (sampled rows))
    unfolding cross_check
    then_cross_check-ok true calls rows =
        let one = check_sample-IsOnChain respond chain honest calls (sampled rows) in
        (λ h k. one.0 h, λ h. one.1 (h refl))
    then_cross_check-ok false calls rows = (λ h k. absurd (cc k), λ h. refl)

    check_file-IsPassed :
        (has_key : Bool) (calls : ℕ) (content : Option (List Raw))
        → ((check_file valid sample respond has_key calls content).0 ≡ ok tt)
          ↔ IsPassed has_key content
    unfolding check_file
    check_file-IsPassed has_key calls none = (λ h. cc h, λ p. cc p.read)
    check_file-IsPassed has_key calls (some raws) = (
      λ h. elim (Outcome-cases (verify_file valid raws)) [
        | inl (e, k) ↦ let bad : err (refused e) ≡ ok tt = rw k at h in cc bad
        | inr (rows, k) ↦
            let (cast, good) = (verify_file-IsGood valid raws rows).0 k in
            record {
              raws = raws;
              rows = rows;
              read = refl;
              cast = cast;
              good = good;
              on_chain = (then_cross_check-ok has_key calls rows).0 (rw k at h);
            }
      ],
      λ p.
          let same : p.raws ≡ raws = ground (arith, p.read) in
          let cast : AreCast raws p.rows = subst (λ r. AreCast r p.rows) same p.cast in
          let k = (verify_file-IsGood valid raws p.rows).1 (cast, p.good) in
          rw k ((then_cross_check-ok has_key calls p.rows).1 p.on_chain),
    )

    note-nil :
        (name : Text) (result : Outcome Failure (Unit {0})) (failures : List (Text × Failure))
        → (note name result failures ≡ []) ↔ ((result ≡ ok tt) × (failures ≡ []))
    note-nil name (ok u) failures = (λ h. (refl, h), λ h. h.1)
    note-nil name (err e) failures = (λ h. cc h, λ h. cc h.0)

    abbrev pub ArePassed : Bool → List File → Type 0
    ArePassed has_key files = All (λ (file : File). IsPassed has_key file.content) files

    failures_of-nil :
        (has_key : Bool) (calls : ℕ) (files : List File)
        → (failures_of valid sample respond has_key calls files ≡ []) ↔ ArePassed has_key files
    unfolding failures_of
    failures_of-nil has_key calls [] = (λ h. tt, λ h. refl)
    failures_of-nil has_key calls (file ∷ files) =
        let now = check_file valid sample respond has_key calls file.content in
        let here = check_file-IsPassed has_key calls file.content in
        let rest = failures_of-nil has_key now.1 files in
        let split =
          note-nil file.name now.0 (failures_of valid sample respond has_key now.1 files) in
        (λ h. let (a, b) = split.0 h in (here.0 a, rest.0 b), λ h. split.1 (here.1 h.0, rest.1 h.1))

    exit_status-zero :
        (failures : List (Text × Failure)) → (exit_status failures ≡ 0) ↔ (failures ≡ [])
    exit_status-zero [] = (λ h. refl, λ h. refl)
    exit_status-zero (failure ∷ failures) = (λ h. absurd (omega arith), λ h. cc h)

    verdict-zero :
        (has_key : Bool) (files : List File)
        → (verdict valid sample respond has_key files ≡ 0)
          ↔ ((files ≢ []) × ArePassed has_key files)
    verdict-zero has_key [] = (λ h. absurd (omega arith), λ h. absurd (h.0 refl))
    verdict-zero has_key (file ∷ files) =
        let one = exit_status-zero (failures_of valid sample respond has_key 0 (file ∷ files)) in
        let all = failures_of-nil has_key 0 (file ∷ files) in
        (λ h. (λ e. absurd (cc e), all.0 (one.0 h)), λ h. one.1 (all.1 h.1))

    -- Where the API is honest, the tool exits with 0 exactly if there is a fixture and each one can be
    -- read, has its integers, holds good rows and, if an API key is set, has every row that the
    -- sample of at most ten draws on the chain: the row's transaction is in the row's
    -- block.
    pub main-zero :
        (env_file : Option (List Text)) (environ : Environ) (files : List File)
        → (main valid sample respond env_file environ files ≡ 0)
          ↔ ((files ≢ []) × ArePassed (has_api_key env_file environ) files)
    unfolding main has_api_key
    main-zero env_file environ files = verdict-zero (has_api_key env_file environ) files
