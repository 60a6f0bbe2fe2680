-- ===== src/Tests/ErrorTests.antt =====
-- Runs of the search for errors in a log of three records.
use maketool.Common.{ℕ, ◌<◌, ◌+◌, ◌≡◌, refl, true, none, some, List, [], ◌∷◌, codes}
use maketool.Filter.Types.{plain, information, warning, error, Kind, filter_result_init}
use maketool.Log.Records.{LogRec}
use maketool.Log.Errors.{
  stops, find_forward, log_next_error, log_prev_error, FirstError, IsAboutFile,
  log_next_error-FirstError, log_prev_error-log_next_error,
}

abbrev logged : Kind → LogRec
logged k = record {
  line = codes "a.c:1: x";
  res = record filter_result_init { code = plain k; file = some (codes "a.c") };
  node = none;
  expanded = true;
  context = none;
}

abbrev three : List LogRec
three = logged error ∷ logged information ∷ logged warning ∷ []

next_found : log_next_error three (some 0) ≡ some 2
unfolding log_next_error find_forward stops
next_found = refl

log_next_error-FirstError_example :
    ((j : ℕ) → log_next_error three (some 0) ≡ some j → FirstError three (0 + 1) j)
    × (log_next_error three (some 0) ≡ none → (k : ℕ) → 0 < k → ¬ IsAboutFile three k)
log_next_error-FirstError_example = log_next_error-FirstError three 0

log_prev_error-log_next_error_example : log_prev_error three (some 2) ≡ some 0
log_prev_error-log_next_error_example =
    log_prev_error-log_next_error three 0 2 (unfold stops in refl) next_found
