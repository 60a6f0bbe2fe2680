-- ===== src/Log/Lines.antt =====
-- log.c: log_add_line and log_start_build. Parameters are what the filters, the working and the
-- home directory and the translated messages contribute. A fault, `none`, is a failed assertion,
-- a null pointer or an access out of bounds.
pub mod Stack
pub mod Shown
pub mod Pending
pub mod Kept
pub mod Drain
pub mod Counts
pub mod Classify
pub mod Annotate
pub mod Total
use maketool.Common.{
  ℕ, zero, suc, ◌+◌, Bool, true, false, ◌||◌, not, Option, none, some, List, [], ◌∷◌, ◌++◌,
  if◌then◌else◌, ◌>>=◌, Bytes, codes, length, get_elem?, set, ltb,
}
use maketool.Estring.{Estring, init, text, append_string, append_printf}
use maketool.Util.Paths.{file_denormalise, is_absolute}
use maketool.Filter.Types.{
  Kind, undefined, information, change_dir, push_dir, pop_dir, build_start, plain, FilterCode,
  FilterResult, filter_result_init, Filters,
}
use maketool.Filter.Apply.{Regexec, Engine, filter_apply, filter_init}
use maketool.Log.Dirs.{Dirs, log_push_dir, log_pop_dir, log_clear_dirs, log_get_context}
use maketool.Log.Records.{LogRec, LogFlags, Log, Node, Row, switch_kind, log_add_rec, log_show_rec}

-- The static variables that log_add_line changes: its own, those of the filters, the directories
-- and the log. `pending` holds `num_pending` lines, oldest first.
pub record LogState : Type 0 where
  pub engine : Engine
  pub res : FilterResult
  pub pending : List Bytes
  pub dirs : Dirs
  pub log : Log

-- What log_add_line takes from elsewhere: the flags, the translated "%d errors" and "%d warnings",
-- the bound that glib computes for such a text, the value of file_current and that of file_home.
pub record Surroundings : Type 0 where
  pub flags : LogFlags
  pub errors_text : ℕ → Bytes
  pub warnings_text : ℕ → Bytes
  pub bound : Bytes → ℕ
  pub current : Bytes
  pub home : Bytes

-- estring_append_printf of a translated text
abbrev pub append_count : Surroundings → Bytes → Estring → Option Estring
append_count env s e = append_printf e (env.bound s) s

unfoldable pub annotate_errors : Surroundings → ℕ → Estring → Option Estring
annotate_errors env errors e =
    if ltb 0 errors
    then (append_string e (some (codes " (")) >>= λ e1.
        append_count env (env.errors_text errors) e1)
    else some e

unfoldable pub annotate_warnings : Surroundings → Bool → ℕ → Estring → Option Estring
annotate_warnings env follows warnings e =
    if ltb 0 warnings
    then (append_string e (some (if follows then codes ", " else codes " (")) >>= λ e1.
        append_count env (env.warnings_text warnings) e1)
    else some e

-- log_build_annotate without the duration
unfoldable pub log_build_annotate : Surroundings → ℕ → ℕ → Estring → Option Estring
unfolding annotate_errors annotate_warnings
log_build_annotate env errors warnings e = annotate_errors env errors e >>= λ e1.
    annotate_warnings env (ltb 0 errors) warnings e1 >>= λ e2.
    if ltb 0 errors || ltb 0 warnings then append_string e2 (some (codes ")")) else some e2

-- log_rootmost_node
unfoldable pub log_rootmost_node : List Node → Option Node
log_rootmost_node [] = none
log_rootmost_node (n ∷ []) = some n
log_rootmost_node (n ∷ m ∷ ms) = log_rootmost_node (m ∷ ms)

-- gtk_ctree_node_set_text on a row
unfoldable pub set_row_text : ℕ → Bytes → List Row → List Row
set_row_text i text [] = []
set_row_text zero text (r ∷ rs) = record r { text = text } ∷ rs
set_row_text (suc i) text (r ∷ rs) = r ∷ set_row_text i text rs

-- log_update_build_start(FALSE) for the rootmost record
unfoldable pub annotate_root : Surroundings → Log → Option Node → Option Log
unfolding log_build_annotate
annotate_root env st none = some st
annotate_root env st (some root) = get_elem? st.log root.place >>= λ bs. bs.node >>= λ row.
    append_string init (some bs.line) >>= λ start.
    log_build_annotate env st.num_errors st.num_warnings start >>= λ e.
    some (record st { rows = set_row_text row (text e) st.rows; num_ew_changed = false })

unfoldable pub log_update_build_start : Surroundings → Log → Option Log
unfolding annotate_root
log_update_build_start env st =
    if not st.num_ew_changed || not (ltb 0 st.num_errors || ltb 0 st.num_warnings)
    then some st
    else annotate_root env st (log_rootmost_node st.node_stack)

-- One round of the loop that drains the pending lines.
unfoldable pub add_and_show :
    Surroundings → FilterResult → Option (List ℕ) → Bytes → Log → Option Log
add_and_show env res con line st =
    log_show_rec env.flags (length st.log) (log_add_rec line res con st) >>= λ shown.
    log_update_build_start env shown

-- The result that the lines after the first are given.
abbrev pub follow_up : FilterResult → FilterResult
follow_up res = record res { summary = some []; code = plain information }

unfoldable pub drain_rest :
    Surroundings → FilterResult → Option (List ℕ) → List Bytes → Log → Option Log
drain_rest env res con [] st = some st
drain_rest env res con (line ∷ lines) st =
    add_and_show env (follow_up res) con line st >>= λ st'. drain_rest env res con lines st'

-- the loop over `pending`
unfoldable pub drain : Surroundings → FilterResult → Option (List ℕ) → List Bytes → Log → Option Log
drain env res con [] st = some st
drain env res con (line ∷ lines) st =
    add_and_show env res con line st >>= λ st'. drain_rest env res con lines st'

-- What `res` is after the loop.
unfoldable pub drained_res : FilterResult → List Bytes → FilterResult
drained_res res (line ∷ line' ∷ lines) = follow_up res
drained_res res _ = res

abbrev pub needs_context : Option Bytes → Bool
needs_context none = false
needs_context (some f) = not (is_absolute f)

-- What the `switch` of log_add_line leaves: the result, the context and the directories.
abbrev pub Classified : Type 0
Classified = FilterResult × Option (List ℕ) × Dirs

-- the default of that `switch`
unfoldable pub in_context : FilterResult → Dirs → Option Classified
in_context res dirs =
    if needs_context res.file
    then (log_get_context dirs >>= λ (con, dirs'). some (res, some con, dirs'))
    else some (res, none, dirs)

unfoldable pub classify_as : Kind → Surroundings → FilterResult → Dirs → Option Classified
unfolding in_context
classify_as undefined env res dirs = some (record res { code = plain information }, none, dirs)
classify_as change_dir env res dirs = none
classify_as push_dir env res dirs = res.file >>= λ f. some (
  record res { summary = some (file_denormalise true true env.current env.home f) },
  none,
  log_push_dir env.current res.line f dirs,
)
classify_as pop_dir env res dirs =
    res.file >>= λ f. some (res, none, log_pop_dir env.current res.line f dirs)
classify_as _ env res dirs = in_context res dirs

unfoldable pub classify : Surroundings → FilterResult → Dirs → Option Classified
unfolding classify_as
classify env res dirs = classify_as (switch_kind res.code) env res dirs

-- the step on the array `pending`, whose size MAX_PENDING is 16
unfoldable pub store_line : Bytes → LogState → Option LogState
store_line line st =
    if ltb (length st.pending) 16
    then some (record st { pending = st.pending ++ line ∷ [] })
    else none

-- log_add_line up to the test of FR_PENDING: the line is filtered and stored.
unfoldable pub take_line : Regexec → Filters → Bytes → LogState → Option LogState
take_line regexec fs line st =
    filter_apply regexec fs line st.engine
      (if st.res.code.pending then st.res else filter_result_init)
    >>= λ (e, res). store_line line (record st { engine = e; res = res })

-- the rest of log_add_line
unfoldable pub finish_message : Surroundings → LogState → Option LogState
finish_message env st = classify env st.res st.dirs >>= λ (res, con, dirs).
    drain env res con st.pending st.log >>= λ log.
    some (record st { res = drained_res res st.pending; pending = []; dirs = dirs; log = log })

unfoldable pub log_add_line : Regexec → Filters → Surroundings → Bytes → LogState → Option LogState
log_add_line regexec fs env line st = take_line regexec fs line st >>= λ taken.
    if taken.res.code.pending then some taken else finish_message env taken

-- log_start_build
unfoldable pub log_start_build : Surroundings → Bytes → LogState → Option LogState
log_start_build env message st =
    let res : FilterResult = record filter_result_init { code = plain build_start } in
    let fresh : Log = record st.log { num_errors = 0; num_warnings = 0; num_ew_changed = false } in
    log_show_rec env.flags (length fresh.log) (log_add_rec message res none fresh) >>= λ log.
    some (record st { dirs = log_clear_dirs st.dirs; engine = filter_init st.engine; log = log })
