-- ===== src/Tests/FileTests.antt =====
-- Runs of log.c on files: a saved log that is read in two chunks, and a name in a context.
use maketool.Common.{
  ℕ, ◌≡◌, refl, true, Bool, none, some, List, [], ◌∷◌, ◌++◌, ◌>>=◌, arith, map, any, ◌&&◌, Bytes,
  codes, str_eq, ◌==◌, if◌then◌else◌,
}
use maketool.Filter.Types.{filter_result_init}
use maketool.Tests.FilterTests.{gcc_only, matched}
use maketool.Tests.LogTests.{env, idle}
use maketool.Task.Input.Chunks.{cut}
use maketool.Util.Paths.{is_absolute}
use maketool.Log.Records.{LogRec}
use maketool.Log.Lines.{log_start_build}
use maketool.Log.Files.{log_save, add_lines, log_open}
use maketool.Log.Files.RoundTrip.{log_open-log_save, log_open_newline}
use maketool.Log.Filenames.{log_get_filenames}
use maketool.Log.Filenames.Found.{Apart, times, one_if, names, times-log_get_filenames}

abbrev saved : Bytes → LogRec
saved line = record {
  res = filter_result_init;
  line = line;
  context = none;
  expanded = true;
  node = none;
}

abbrev two_records : List LogRec
two_records = saved (codes "cc a.c") ∷ saved [] ∷ []

log_open-log_save_example :
    log_open matched gcc_only env
      (codes "Log file a")
      (codes "cc " ∷ (codes "a.c" ++ b'\n' ∷ b'\n' ∷ []) ∷ [])
      idle
    ≡ (log_start_build env (codes "Log file a") idle >>= λ started.
        add_lines matched gcc_only env (map (λ lr. some lr.line) two_records) started)
log_open-log_save_example =
    log_open-log_save matched gcc_only env (codes "Log file a") idle two_records b'c' (codes "c ")
      ((codes "a.c" ++ b'\n' ∷ b'\n' ∷ []) ∷ [])
      ((refl, (refl, (refl, (refl, (refl, (refl, tt)))))), (tt, tt)) (unfold log_save in refl) refl
      (unfold cut in ((tt, omega arith), (((omega arith, (omega arith, tt)), omega arith), tt)))

log_open_newline_example :
    log_open matched gcc_only env (codes "Log file a") ((b'\n' ∷ codes "cc a.c") ∷ []) idle ≡ none
log_open_newline_example =
    log_open_newline matched gcc_only env (codes "Log file a") (codes "cc a.c") [] idle

abbrev in_lib : Bytes → Bool
in_lib f = str_eq f (codes "l" ++ b'/' ∷ codes "a.c")

abbrev short_name : ℕ → Bytes
short_name dir = if dir == 0 then codes "l" else codes "s"

short_name-Apart : Apart short_name 2
short_name-Apart a b la lb h = ground arith

times-log_get_filenames_example :
    times
      (codes "l/a.c")
      (log_get_filenames in_lib short_name (codes "/") (codes "a.c") (some (0 ∷ 1 ∷ 0 ∷ [])))
    ≡ one_if (
        any (names short_name (codes "a.c") (codes "l/a.c")) (0 ∷ 1 ∷ 0 ∷ [])
        && in_lib (codes "l/a.c"))
times-log_get_filenames_example =
    times-log_get_filenames in_lib short_name (codes "/") (codes "a.c") 2 (codes "l/a.c") 0
      (1 ∷ 0 ∷ []) (unfold is_absolute in refl) short_name-Apart
      (omega arith, (omega arith, (omega arith, tt)))
