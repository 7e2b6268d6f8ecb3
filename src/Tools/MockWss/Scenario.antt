-- ===== src/Tools/MockWss/Scenario.antt =====
-- `resolve_scenario_file` of tools/mock_wss/replay.py. Which paths are files is an argument.
use ai_quantum.Common.{
  Bool, true, ◌≡◌, refl, List, [], ◌∷◌, ◌++◌, Option, none, some, Outcome, ok, err, if◌then◌else◌,
}
use ai_quantum.Common.Text.{Text, codes, text_eq}
use ai_quantum.Common.Eq.{text_eq_instance}
use ai_quantum.Common.Dict.{get}

-- `SCENARIO_FILES`.
unfoldable pub scenario_files : List (Text × Text)
scenario_files =
    (codes "luna", codes "luna_2022_05_09.csv")
    ∷ (codes "ftx", codes "ftx_2022_11_08.csv")
    ∷ (codes "normal", codes "normal_2023_03_15.csv")
    ∷ []

-- `ValueError` and `FileNotFoundError`.
pub data ScenarioError : Type 0 where
  unknown_scenario : Text → ScenarioError
  fixture_not_found : Text → Text → ScenarioError

module _ (fixtures_dir : Text) (is_file : Text → Bool) where
  abbrev pub file_in : Text → Text
  file_in name = fixtures_dir ++ codes "/" ++ name

  abbrev pub compressed_or_raw : Text → Text → Outcome ScenarioError Text
  compressed_or_raw gz raw =
      if is_file gz then ok gz else if is_file raw then ok raw else err (fixture_not_found gz raw)

  abbrev pub with_stem : Text → Option Text → Outcome ScenarioError Text
  with_stem scenario none = err (unknown_scenario scenario)
  with_stem scenario (some stem) = compressed_or_raw (file_in (stem ++ codes ".gz")) (file_in stem)

  unfoldable pub resolve_scenario_file : Text → Outcome ScenarioError Text
  unfolding scenario_files
  resolve_scenario_file scenario = with_stem scenario (get scenario scenario_files)

abbrev only_raw : Text → Bool
only_raw path = text_eq path (codes "f/ftx_2022_11_08.csv")

finds_raw :
    resolve_scenario_file (codes "f") only_raw (codes "ftx") ≡ ok (codes "f/ftx_2022_11_08.csv")
unfolding resolve_scenario_file get text_eq
finds_raw = refl

prefers_compressed :
    resolve_scenario_file (codes "f") (λ p. true) (codes "ftx")
    ≡ ok (codes "f/ftx_2022_11_08.csv.gz")
unfolding resolve_scenario_file get text_eq
prefers_compressed = refl

finds_neither :
    resolve_scenario_file (codes "f") only_raw (codes "normal")
    ≡ err (fixture_not_found (codes "f/normal_2023_03_15.csv.gz") (codes "f/normal_2023_03_15.csv"))
unfolding resolve_scenario_file get text_eq
finds_neither = refl

refuses_unknown :
    resolve_scenario_file (codes "f") (λ p. true) (codes "terra")
    ≡ err (unknown_scenario (codes "terra"))
unfolding resolve_scenario_file get text_eq
refuses_unknown = refl
