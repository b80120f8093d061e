-- ===== src/Training/Tests.antt =====
-- Tests of the promotion, and the result at a concrete input.
use lzd.Common.{ℕ, ◌≡◌, refl, ◌⊎◌, true, false, [], ◌∷◌, some, ◌==ₛ◌, ltb, if◌then◌else◌}
use lzd.Common.Outcome.{ok, err, key_error}
use lzd.Training.Promote.{ModelVersion, Registry, decide, version_of_run}
use lzd.Training.Promote.Gates.{PassesAll, Moved, Kept, decide-Decided}

abbrev old_version : ModelVersion
old_version = record { version = 1; run_id = "r1" }

abbrev new_version : ModelVersion
new_version = record { version = 2; run_id = "r2" }

abbrev registry : Registry ℕ
registry = record {
  metric = λ run. if run ==ₛ "r1" then some 10 else some 12;
  holdout_version = λ run. some "h1";
  failed_sanity = λ run. [];
  package_ok = λ run. true;
  exceeds = λ new old. ltb old new;
}

new_run : version_of_run (old_version ∷ new_version ∷ []) "r2" ≡ ok new_version
new_run = refl

no_run : version_of_run (old_version ∷ []) "r2" ≡ err key_error
no_run = refl

decide-Decided_example :
    (PassesAll registry new_version false (some old_version)
      × Moved registry new_version
          (some old_version)
          (decide registry new_version false (some old_version)))
    ⊎ ((PassesAll registry new_version false (some old_version) → ⊥)
        × Kept registry new_version
            (some old_version)
            (decide registry new_version false (some old_version)))
decide-Decided_example = decide-Decided registry new_version false (some old_version)
