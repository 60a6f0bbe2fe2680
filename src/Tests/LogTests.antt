-- ===== src/Tests/LogTests.antt =====
-- Runs of log.c: a build that enters a directory and fails there.
use maketool.Log.Lines.Annotate.{ShortCounts}
use maketool.Common.{
  sym, ap, ◌∙◌, inr, ℕ, ◌≡◌, ◌↔◌, refl, inl, Bool, true, false, Option, none, some, List, [], ◌∷◌,
  ◌++◌, arith, Bytes, codes, length, str_eq, ◌+◌,
}
use maketool.Estring.{
  truncate, append_char, append_chars, expand_by, write, append_string, append_printf,
}
use maketool.Util.Paths.{file_normalise, is_absolute}
use maketool.Filter.Types.{
  plain, pending, error, push_dir, build_start, FilterResult, filter_result_init,
}
use maketool.Filter.Apply.{
  first_byte, filter_apply, apply_loop, filter_apply_one, apply_regexec, apply_match,
  filter_replace_matches, replace_loop, replace_char, reference, match_at, append_match, is_some,
  matched_engine, matched_result, apply_summary, new_summary, is_set, old_text, nonempty_or,
  positive_or, apply_code,
}
use maketool.Filter.Checks.{is_logged, with_lead, has_lead}
use maketool.Filter.Leads.{filter_calc_leads}
use maketool.Tests.FilterTests.{
  gcc_only, gcc_only-Loaded, matched, engine, bad_line, matched-IsRegexec,
}
use maketool.Log.Dirs.{
  no_dirs, dirs_below, log_unique_dir, log_push_dir, log_pop_dir, log_get_context, Dirs,
  rebuilt_context, cached_or_rebuilt,
}
use maketool.Log.Dirs.Interning.{log_unique_dir_iff}
use maketool.Log.Dirs.Undo.{SameDirs, log_pop_dir-log_push_dir}
use maketool.Log.Dirs.Context.{
  DirEvent, enter, leave, context_read, dir_steps, log_get_context-dir_steps, no_dirs-Coherent,
}
use maketool.Log.Records.{
  switch_kind, Log, Node, log_current_unique_node, log_show_rec, log_add_rec, show_under, show_row,
  disappears, node_at, insert_row, severity_of, stacked, stack_for,
}
use maketool.Log.Nodes.{last_of, log_current_unique_node_run, log_current_unique_node_lost}
use maketool.Log.Lines.{
  LogState, Surroundings, take_line, log_add_line, log_start_build, drain, drain_rest, drained_res,
  add_and_show, store_line, finish_message, classify, classify_as, in_context,
  log_update_build_start, annotate_root, log_rootmost_node, log_build_annotate, annotate_errors,
  annotate_warnings,
}
use maketool.Log.Lines.Pending.{Queued, Taken, take_line-Taken}
use maketool.Log.Lines.Classify.{SaysWhich}
use maketool.Log.Lines.Total.{log_add_line_total, Ready}
use maketool.Log.Lines.Drain.{Added, message_records, error_count, warning_count, drain-Added}
use maketool.Log.Lines.Counts.{lines_of, log_add_line-lines}

log_unique_dir_iff_example :
    ((log_unique_dir (codes "/s") (codes "lib") []).0
      ≡ (log_unique_dir
          (codes "/s")
          (codes "/s/lib")
          (log_unique_dir (codes "/s") (codes "lib") []).1).0)
    ↔ (file_normalise (codes "/s") (codes "lib") ≡ file_normalise (codes "/s") (codes "/s/lib"))
log_unique_dir_iff_example = log_unique_dir_iff (codes "/s") (codes "lib") (codes "/s/lib") []

log_pop_dir-log_push_dir_example :
    SameDirs no_dirs
      (log_pop_dir (codes "/s") 1 (codes "lib") (log_push_dir (codes "/s") 1 (codes "lib") no_dirs))
log_pop_dir-log_push_dir_example =
    log_pop_dir-log_push_dir (codes "/s") 1 (codes "lib") no_dirs
      (record { in_range = omega arith; unused = λ i h. refl; counted = unfold dirs_below in refl })
      (omega arith) (omega arith)

-- Two makes at one depth, as with -j.
abbrev two_makes : List DirEvent
two_makes =
    enter (codes "/s") 1 (codes "lib")
    ∷ enter (codes "/s") 1 (codes "src")
    ∷ context_read
    ∷ leave (codes "/s") 1 (codes "lib")
    ∷ []

log_get_context-dir_steps_example :
    (st : Dirs) × (dir_steps two_makes no_dirs ≡ some st)
    × ((st' : Dirs) × (log_get_context st ≡ some (dirs_below st.dir_max_depth st.dir_stack, st')))
    × (length (dirs_below st.dir_max_depth st.dir_stack) ≡ st.dir_stack_count)
log_get_context-dir_steps_example = log_get_context-dir_steps two_makes

abbrev entering : ℕ → Bytes → Node
entering place f = record {
  place = place;
  res = record filter_result_init { code = plain push_dir; file = some f };
}

abbrev starting : Node
starting = record { place = 0; res = record filter_result_init { code = plain build_start } }

log_current_unique_node_run_example :
    log_current_unique_node
      (entering 2 (codes "/s") ∷ (entering 1 (codes "/s") ∷ []) ++ starting ∷ [])
    ≡ some (some (last_of (entering 2 (codes "/s")) (entering 1 (codes "/s") ∷ [])))
log_current_unique_node_run_example =
    log_current_unique_node_run (codes "/s") (entering 2 (codes "/s"))
      (entering 1 (codes "/s") ∷ []) starting [] (refl, refl) ((refl, refl), tt) (inl refl)

log_current_unique_node_lost_example :
    log_current_unique_node (entering 2 (codes "/s") ∷ entering 1 (codes "/s") ∷ []) ≡ some none
log_current_unique_node_lost_example =
    log_current_unique_node_lost (codes "/s") (entering 2 (codes "/s")) (entering 1 (codes "/s")) []
      (refl, refl) ((refl, refl), tt)

abbrev empty_log : Log
empty_log = record {
  log = [];
  node_stack = [];
  rows = [];
  num_errors = 0;
  num_warnings = 0;
  num_ew_changed = false;
}

abbrev pub idle : LogState
idle = record {
  engine = engine;
  res = filter_result_init;
  pending = [];
  dirs = no_dirs;
  log = empty_log;
}

idle-Queued : Queued idle
idle-Queued = record {
  buf_valid = (refl, refl);
  synced = refl;
  few = omega arith;
  loggable = unfold is_logged in refl;
}

abbrev pub env : Surroundings
env = record {
  flags = record {
    show_info = true;
    show_warnings = true;
    show_errors = true;
    summarise = false;
    indent_dirs = true;
  };
  errors_text = λ n. codes "errors";
  warnings_text = λ n. codes "warnings";
  bound = λ s. length s + 1;
  current = codes "/s";
  home = codes "/home/joe";
}

take_line-Taken_example :
    (taken : LogState) × (take_line matched gcc_only bad_line idle ≡ some taken)
    × Taken bad_line idle taken
take_line-Taken_example =
    take_line-Taken matched gcc_only bad_line idle gcc_only-Loaded matched-IsRegexec (omega arith)
      (unfold first_byte in omega arith) idle-Queued

-- What a fallible run gives.
abbrev given : Option LogState → LogState
given (some st) = st
given none = idle

abbrev is_given : Option LogState → Bool
is_given (some st) = true
is_given none = false

given-some : (o : Option LogState) → is_given o ≡ true → o ≡ some (given o)
given-some (some st) h = refl
given-some none h = absurd (cc)

abbrev added : Option LogState
added = log_add_line matched gcc_only env bad_line idle

added-some : added ≡ some (given added)
added-some = given-some added (
    unfold log_add_line take_line filter_apply first_byte apply_loop filter_apply_one apply_regexec
      apply_match filter_replace_matches replace_loop replace_char reference match_at append_match
      is_some matched_engine matched_result apply_summary new_summary is_set old_text nonempty_or
      positive_or apply_code store_line finish_message classify classify_as in_context drain
      drain_rest drained_res add_and_show log_show_rec log_add_rec log_current_unique_node
      show_under show_row disappears node_at insert_row severity_of stacked stack_for
      log_update_build_start annotate_root log_build_annotate annotate_errors annotate_warnings
      append_string append_printf log_rootmost_node truncate append_char append_chars expand_by
      write str_eq log_get_context cached_or_rebuilt rebuilt_context dirs_below with_lead has_lead
      filter_calc_leads is_absolute in
    refl)

log_add_line-lines_example : lines_of (given added) ≡ lines_of idle ++ bad_line ∷ []
log_add_line-lines_example =
    log_add_line-lines matched gcc_only env bad_line idle (given added) added-some

-- A build that ended in the middle of a message.
abbrev halted : LogState
halted = record idle {
  engine = record engine { state = codes "mipspro1" };
  res = record filter_result_init { code = pending error; file = some (codes "a.c") };
  pending = codes "cc-1020 cc: ERROR" ∷ [];
}

abbrev restarted : Option LogState
restarted = log_start_build env (codes "make all") halted

restarted-some : restarted ≡ some (given restarted)
restarted-some = given-some restarted (
    unfold log_start_build log_show_rec log_add_rec log_current_unique_node show_under show_row
      disappears node_at insert_row severity_of stacked stack_for in
    refl)

abbrev failed : FilterResult
failed = record filter_result_init { code = plain error; file = some (codes "a.c"); line = 12 }

-- A log, or the empty one.
abbrev log_given : Option Log → Log
log_given (some st) = st
log_given none = empty_log

abbrev is_log : Option Log → Bool
is_log (some st) = true
is_log none = false

log_given-some : (o : Option Log) → is_log o ≡ true → o ≡ some (log_given o)
log_given-some (some st) h = refl
log_given-some none h = absurd (cc)

abbrev drained : Option Log
drained = drain env failed none (bad_line ∷ codes "  x = 1;" ∷ []) empty_log

drained-some : drained ≡ some (log_given drained)
drained-some = log_given-some drained (
    unfold drain drain_rest add_and_show log_show_rec log_add_rec log_current_unique_node show_under
      show_row disappears node_at insert_row severity_of stacked stack_for log_update_build_start
      annotate_root log_build_annotate annotate_errors annotate_warnings append_string append_chars
      append_printf expand_by write log_rootmost_node in
    refl)

drain-Added_example :
    Added empty_log
      (log_given drained)
      (message_records failed (bad_line ∷ codes "  x = 1;" ∷ []))
      (error_count failed)
      (warning_count failed)
drain-Added_example =
    drain-Added env failed none bad_line (codes "  x = 1;" ∷ []) empty_log (log_given drained)
      drained-some

abbrev taken_state : Option LogState
taken_state = take_line matched gcc_only bad_line idle

taken_kind : switch_kind (given taken_state).res.code ≡ error
unfolding take_line filter_apply first_byte apply_loop filter_apply_one apply_regexec apply_match
    filter_replace_matches replace_loop replace_char reference match_at append_match is_some
    matched_engine matched_result apply_summary new_summary is_set old_text nonempty_or positive_or
    apply_code store_line truncate append_char append_chars expand_by write str_eq with_lead
    has_lead filter_calc_leads
taken_kind = refl

same_kind : (taken : LogState) → taken_state ≡ some taken → switch_kind taken.res.code ≡ error
same_kind taken h = sym (ap (λ o. switch_kind (given o).res.code) h) ∙ taken_kind

says_which : (taken : LogState) → taken_state ≡ some taken → SaysWhich taken.res
says_which taken h (inl e) = absurd (cc (same_kind taken h, e))
says_which taken h (inr e) = absurd (cc (same_kind taken h, e))

env-ShortCounts : ShortCounts env
env-ShortCounts n = (omega arith, omega arith, omega arith, omega arith)

idle-Ready : Ready idle
idle-Ready = record {
  queued = idle-Queued;
  rooted = tt;
  log_lines = tt;
  pending_lines = tt;
  dirs = no_dirs-Coherent;
}

log_add_line_total_example :
    (st' : LogState) × (log_add_line matched gcc_only env bad_line idle ≡ some st') × Ready st'
log_add_line_total_example =
    log_add_line_total matched gcc_only env bad_line idle gcc_only-Loaded matched-IsRegexec
      env-ShortCounts (omega arith) (unfold first_byte in omega arith) idle-Ready says_which
