-- ===== src/Engine/Runner/Worker.antt =====
-- What the worker produces, and that the stop signal reaches it.
use ai_quantum.Common.{◌≡◌, refl, List, [], ◌∷◌, ◌++◌, Option, none, some, arith}
use ai_quantum.Engine.Runner.{Message, frame, stop, worker}

module _ {A R : Type 0} (detector : A → Option R) where
  -- The results of the frames for which the detector does not raise.
  pub results : List A → List R
  results [] = []
  results (x ∷ xs) = let rest = results xs in elim (detector x) [ none ↦ rest | some r ↦ r ∷ rest ]

  abbrev pub frames : List A → List (Message A)
  frames [] = []
  frames (x ∷ xs) = frame x ∷ frames xs

  -- The worker gives the results of all frames before the stop signal, in order, and of none after
  -- it; a frame on which the detector raises is skipped and stops nothing.
  pub worker-frames :
      (xs : List A) (after : List (Message A))
      → worker detector (frames xs ++ stop ∷ after) ≡ results xs
  unfolding worker results
  worker-frames [] after = refl
  worker-frames (x ∷ xs) after = ground (arith, worker-frames xs after)
