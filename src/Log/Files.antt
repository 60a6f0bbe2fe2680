-- ===== src/Log/Files.antt =====
-- log.c: log_save and log_open, without their progress reports and the failures of fopen and fstat,
-- which end in a message; and log_repopulate. A chunk is what one
-- fread() gives, up to its first NUL byte.
pub mod Points
pub mod RoundTrip
use maketool.Common.{
  ℕ, zero, suc, ◌+◌, Bool, true, false, Option, none, some, List, [], ◌∷◌, ◌++◌, length, get_elem?,
  ltb, ◌==◌, if◌then◌else◌, ◌>>=◌, Bytes,
}
use maketool.Estring.{Estring, init, append_string, truncate}
use maketool.Task.Input.{split_line}
use maketool.Filter.Types.{Filters}
use maketool.Filter.Apply.{Regexec}
use maketool.Log.Records.{LogRec, LogFlags, Log, log_show_rec}
use maketool.Log.Lines.{LogState, Surroundings, log_add_line, log_start_build}

-- log_save: what is written to the file
unfoldable pub log_save : List LogRec → Bytes
log_save [] = []
log_save (lr ∷ log) = lr.line ++ b'\n' ∷ log_save log

-- The pointers that log_open gives to log_add_line, and `leftover`.
abbrev pub Opened : Type 0
Opened = Option (List (Option Bytes) × Estring)

-- One round of the inner loop of log_open; `self` is the rest of the loop.
unfoldable pub open_round :
    (Bytes → Estring → Opened) → Bytes → Estring → Option (Bytes × Bytes) → Opened
open_round self start leftover none = append_string leftover (some start) >>= λ e. some ([], e)
open_round self start leftover (some (line, tail)) = append_string leftover (some line) >>= λ e.
    self tail (truncate e) >>= λ (ptrs, e'). some (e.data_ ∷ ptrs, e')

-- the inner loop of log_open; it ends in a round with no newline
unfoldable pub open_loop : ℕ → Bytes → Estring → Opened
unfolding open_round split_line
open_loop zero start leftover = none
open_loop (suc fuel) start leftover = open_round (open_loop fuel) start leftover (split_line start)

-- the loop over fread
unfoldable pub open_chunks : List Bytes → Estring → Opened
unfolding open_loop
open_chunks [] leftover = some ([], leftover)
open_chunks (buf ∷ bufs) leftover = open_loop (suc (length buf)) buf leftover >>= λ (ptrs, e).
    open_chunks bufs e >>= λ (more, e'). some (ptrs ++ more, e')

-- All that is given to log_add_line, with a last line that has no newline.
unfoldable pub open_lines : List Bytes → Option (List (Option Bytes))
unfolding open_chunks
open_lines bufs = open_chunks bufs init >>= λ (ptrs, e).
    some (if ltb 0 e.length_ then ptrs ++ e.data_ ∷ [] else ptrs)

-- The calls of log_add_line; a null pointer is a fault.
unfoldable pub add_lines :
    Regexec → Filters → Surroundings → List (Option Bytes) → LogState → Option LogState
add_lines regexec fs env [] st = some st
add_lines regexec fs env (line ∷ lines) st =
    line >>= λ l. log_add_line regexec fs env l st >>= λ st'. add_lines regexec fs env lines st'

-- log_open, with the text that names the file. `leftover` does not depend on the log, so the lines
-- are cut first.
unfoldable pub log_open :
    Regexec → Filters → Surroundings → Bytes → List Bytes → LogState → Option LogState
unfolding open_lines add_lines
log_open regexec fs env startstr bufs st = log_start_build env startstr st >>= λ started.
    open_lines bufs >>= λ lines. add_lines regexec fs env lines started

-- the loop of log_repopulate
unfoldable pub show_all : LogFlags → ℕ → ℕ → Log → Option Log
show_all flags zero i st = some st
show_all flags (suc n) i st = log_show_rec flags i st >>= λ st'. show_all flags n (i + 1) st'

-- log_repopulate, without the position of the window
unfoldable pub log_repopulate : LogFlags → Log → Option Log
unfolding show_all
log_repopulate flags st = show_all flags (length st.log) 0 (record st { rows = [] })
