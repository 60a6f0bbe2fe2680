-- ===== src/Tests/SearchTests.antt =====
-- Runs of find.c, makesys.c and gmake.c.
use maketool.Common.{
  ℕ, ◌≡◌, if◌then◌else◌, refl, true, false, Option, none, some, List, [], ◌∷◌, Bytes, codes, str_eq,
}
use maketool.Filter.Types.{filter_result_init}
use maketool.Log.Records.{LogRec, LogFlags, log_get_text}
use maketool.Find.{FindState, Find, literal, search_log, matches}
use maketool.Find.Order.{
  outcome, first_hit, hit, search_order, search_log-first_hit, search_log_hidden,
}
use maketool.Makes.System.{enoent, other, Stat, mtime, failed, MakeSystem, ms_makefile_needs_update}
use maketool.Makes.System.Update.{
  out_of_date, all_deps, ms_makefile_needs_update-out_of_date, ms_makefile_needs_update_errno,
}
use maketool.Makes.Targets.Entries.{Entry}

abbrev record_of : Bytes → Option ℕ → LogRec
record_of line node = record {
  line = line;
  res = filter_result_init;
  node = node;
  expanded = true;
  context = none;
}

abbrev three_records : List LogRec
three_records =
    record_of (codes "cc -c a.c") (some 0)
    ∷ record_of (codes "a.c: error") none
    ∷ record_of (codes "done") (some 1)
    ∷ []

abbrev all_shown : LogFlags
all_shown = record {
  show_info = true;
  show_warnings = true;
  show_errors = true;
  summarise = false;
  indent_dirs = false;
}

abbrev no_search : Find
no_search = record {
  state_stack = [];
  current = none;
  forward = true;
  wrap = true;
  found = false;
  selected = some 0;
}

abbrev for_error : FindState
for_error = record { type = literal; string = codes "error" }

search_log-first_hit_example :
    search_log (λ s. true) (λ s t. false) all_shown for_error three_records no_search
    ≡ record no_search {
      found =
          (outcome three_records (some 0) (
            first_hit
              (hit (λ s. true) (λ s t. false) all_shown for_error three_records)
              (search_order no_search 3))).0;
      selected =
          (outcome three_records (some 0) (
            first_hit
              (hit (λ s. true) (λ s t. false) all_shown for_error three_records)
              (search_order no_search 3))).1;
    }
search_log-first_hit_example =
    search_log-first_hit (λ s. true) (λ s t. false) all_shown for_error three_records no_search

search_log_hidden_example :
    (search_log (λ s. true) (λ s t. false) all_shown for_error three_records no_search
      ≡ record no_search { found = true })
    × (search_log
          (λ s. true)
          (λ s t. false)
          all_shown
          for_error
          three_records
          (record no_search { found = true })
        ≡ record no_search { found = true })
search_log_hidden_example =
    search_log_hidden (λ s. true) (λ s t. false) all_shown for_error three_records no_search 1
      (record_of (codes "a.c: error") none) (unfold matches log_get_text in refl) refl refl

abbrev times : Bytes → Stat
times file =
    if str_eq file (codes "Makefile")
    then mtime 5
    else if str_eq file (codes "Makefile.in")
    then mtime 3
    else failed enoent

abbrev automatic : MakeSystem
automatic = record {
  name = codes "ac";
  automatic = true;
  makefile = codes "Makefile";
  makefile_deps = some (codes "Makefile.in" ∷ []);
  standard_targets = none;
}

ms_makefile_needs_update-out_of_date_example :
    ms_makefile_needs_update times automatic [] other
    ≡ out_of_date times (all_deps (automatic ∷ [])) (times (codes "Makefile"))
ms_makefile_needs_update-out_of_date_example =
    ms_makefile_needs_update-out_of_date times automatic []
      ((λ e. absurd (unfold str_eq in cc e)), tt)

ms_makefile_needs_update_errno_example : ms_makefile_needs_update times automatic [] enoent ≡ true
ms_makefile_needs_update_errno_example =
    ms_makefile_needs_update_errno times automatic [] (codes "Makefile.in") [] 5 3 refl
      (unfold str_eq in refl) refl (unfold str_eq in refl)

abbrev two_entries : List Entry
two_entries =
    record {
      is_marked = false;
      name = codes "all";
      dependencies = codes " a.o";
      remarks = codes "#  Phony target" ∷ [] ∷ [];
    }
    ∷ record { is_marked = true; name = codes "a.c"; dependencies = []; remarks = [] }
    ∷ []
