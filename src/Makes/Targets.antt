-- ===== src/Makes/Targets.antt =====
-- gmake.c, pmake.c and sunmake.c: the targets of a makefile, as the make program lists them, with
-- filter_target of main.c. An input function gets the output line by line. What regexec answers for
-- the three fixed expressions is written out. A fault, `none`, is a write behind a heap block.
pub mod Entries
pub mod Database
pub mod Saved
use maketool.Common.{
  ℕ, zero, suc, ◌+◌, ◌-◌, Bool, true, false, not, ◌&&◌, ◌||◌, Option, none, some, List, [], ◌∷◌,
  ◌++◌, length, drop, if◌then◌else◌, ◌==◌, ltb, leb, Bytes, codes, str_eq, has_byte, starts_with,
  strstr, ◌>>=◌,
}
use maketool.Estring.{Estring, init, text, append_chars, append_char}

-- `!strcmp(targ+len-n, end)` for an `end` of n bytes
abbrev ends_with : Bytes → Bytes → Bool
ends_with end targ = str_eq (drop (length targ - length end) targ) end

-- filter_target; a name of one byte, for which the code compares from in front of it on, is taken
-- not to end in ".o"
unfoldable pub filter_target : Bytes → Bool
filter_target targ = not (
    starts_with (codes ".") targ
    || strstr targ (codes "/.")
    || starts_with (codes "/") targ
    || starts_with (codes "../") targ
    || starts_with (codes "_") targ
    || ends_with (codes ".o") targ
    || leb 7 (length targ) && ends_with (codes "DESCEND") targ
    || leb 8 (length targ) && ends_with (codes "SETUPDIR") targ)

abbrev pub is_blank : ℕ → Bool
is_blank c = c == b' ' || c == b'\t'

-- The longest part of a line without the bytes of `stops`, and what is behind it.
unfoldable pub span : Bytes → Bytes → Bytes × Bytes
span stops [] = ([], [])
span stops (c ∷ line) =
    let rest = span stops line in if has_byte c stops then ([], c ∷ line) else (c ∷ rest.0, rest.1)

unfoldable pub blanks : Bytes → Bytes × Bytes
blanks [] = ([], [])
blanks (c ∷ line) =
    let rest = blanks line in if is_blank c then (c ∷ rest.0, rest.1) else ([], c ∷ line)

abbrev pub head_in : Bytes → Bytes → Bool
head_in ends [] = false
head_in ends (c ∷ line) = has_byte c ends

abbrev pub nonempty : Bytes → Bool
nonempty [] = false
nonempty (c ∷ s) = true

-- "^([^#: \t]+)[ \t]*:", up to the colon
unfoldable pub gmake_target_re : Bytes → Option Bytes
unfolding span blanks
gmake_target_re line =
    let name = span (codes "#: \t") line in
    let space = blanks name.1 in
    if nonempty name.0 && head_in (codes ":") space.1 then some (name.0 ++ space.0) else none

-- "^([^#:! \t]+)[ \t]*[:!]", the part in parentheses
unfoldable pub pmake_target_re : Bytes → Option Bytes
unfolding span blanks
pmake_target_re line =
    let name = span (codes "#:! \t") line in
    if nonempty name.0 && head_in (codes ":!") (blanks name.1).1 then some name.0 else none

-- "^([^#:=! \t]+):", the part in parentheses
unfoldable pub sunmake_target_re : Bytes → Option Bytes
unfolding span
sunmake_target_re line =
    let name = span (codes "#:=! \t") line in
    if nonempty name.0 && head_in (codes ":") name.1 then some name.0 else none

-- The parts of GmakeListTargetsTask, which the other two have too: the first lines of the output,
-- for an error message,
pub record FirstLines : Type 0 where
  pub nlines : ℕ
  pub error_buf : Estring

-- and what was found in the output.
pub record TargetList : Type 0 where
  pub targets : List Bytes
  pub is_target : Bool
  pub is_file : Bool
  pub no_rule_message_seen : Bool

-- GmakeListTargetsTask without its Task
pub record ListTargets : Type 0 where
  pub first : FirstLines
  pub list : TargetList

-- The initial state, from gmake_list_targets_task.
abbrev pub list_targets_task : ListTargets
list_targets_task = record {
  first = record { nlines = 0; error_buf = init };
  list = record { targets = []; is_target = true; is_file = false; no_rule_message_seen = false };
}

-- The first lines are kept for an error message.
unfoldable pub save_line : Bytes → FirstLines → Option FirstLines
save_line buf first =
    let nlines = first.nlines + 1 in
    if leb nlines 16
    then (append_chars first.error_buf buf >>= λ e.
        append_char e b'\n' >>= λ e'. some (record { nlines = nlines; error_buf = e' }))
    else some (record first { nlines = nlines })

-- a name that the expression has matched
unfoldable pub add_target : Bytes → TargetList → TargetList
unfolding filter_target
add_target targ ltt =
    if filter_target targ then record ltt { targets = ltt.targets ++ targ ∷ [] } else ltt

-- the end of the input functions of gmake and pmake
unfoldable pub match_line : Option Bytes → TargetList → TargetList
unfolding add_target
match_line none ltt = ltt
match_line (some targ) ltt =
    record (if ltt.is_file && ltt.is_target then add_target targ ltt else ltt) { is_target = true }

-- gmake_list_targets_input behind the saving of the line
unfoldable pub gmake_scan : Bytes → TargetList → TargetList
unfolding match_line gmake_target_re
gmake_scan buf ltt =
    if starts_with (codes "# Files") buf
    then record ltt { is_file = true }
    else if starts_with (codes "# Not a target:") buf
    then record ltt { is_target = false }
    else if starts_with (codes "# VPATH Search Paths") buf
    then record ltt { is_file = false }
    else if strstr buf (codes "*** No rule to make target")
    then record ltt { no_rule_message_seen = true }
    else match_line (gmake_target_re buf) ltt

-- pmake_list_targets_input behind the saving of the line
unfoldable pub pmake_scan : Bytes → TargetList → TargetList
unfolding match_line pmake_target_re
pmake_scan buf ltt =
    if starts_with (codes "#*** Input graph:") buf
    then record ltt { is_file = true }
    else if starts_with (codes "#*** Global Variables:") buf
    then record ltt { is_file = false }
    else match_line (pmake_target_re buf) ltt

-- sunmake_list_targets_input behind the saving of the line
unfoldable pub sunmake_scan : Bytes → TargetList → TargetList
unfolding add_target sunmake_target_re
sunmake_scan buf ltt = elim (sunmake_target_re buf) [ none ↦ ltt | some targ ↦ add_target targ ltt ]

-- The line is saved, and then looked at.
unfoldable pub save_and_scan :
    (Bytes → TargetList → TargetList) → Bytes → ListTargets → Option ListTargets
unfolding save_line
save_and_scan scan buf ltt =
    save_line buf ltt.first >>= λ first. some (record { first = first; list = scan buf ltt.list })

abbrev pub gmake_list_targets_input : Bytes → ListTargets → Option ListTargets
gmake_list_targets_input buf ltt = save_and_scan gmake_scan buf ltt

abbrev pub pmake_list_targets_input : Bytes → ListTargets → Option ListTargets
pmake_list_targets_input buf ltt = save_and_scan pmake_scan buf ltt

abbrev pub sunmake_list_targets_input : Bytes → ListTargets → Option ListTargets
sunmake_list_targets_input buf ltt = save_and_scan sunmake_scan buf ltt

-- What the reap functions give to main.c: the targets, or an error message.
pub data Listed : Type 0 where
  set_targets : List Bytes → Listed
  list_targets_error : Bytes → Listed

abbrev pub is_nil : List Bytes → Bool
is_nil [] = true
is_nil (t ∷ ts) = false

-- gmake_list_targets_reap, pmake_list_targets_reap and sunmake_list_targets_reap
unfoldable pub gmake_list_targets_reap : Bool → ListTargets → Listed
gmake_list_targets_reap successful ltt =
    if not successful && (not ltt.list.no_rule_message_seen || is_nil ltt.list.targets)
    then list_targets_error (text ltt.first.error_buf)
    else set_targets ltt.list.targets

unfoldable pub pmake_list_targets_reap : Bool → ListTargets → Listed
pmake_list_targets_reap successful ltt =
    if not successful && is_nil ltt.list.targets
    then list_targets_error (text ltt.first.error_buf)
    else set_targets ltt.list.targets

unfoldable pub sunmake_list_targets_reap : Bool → ListTargets → Listed
sunmake_list_targets_reap successful ltt =
    if successful
    then set_targets ltt.list.targets
    else list_targets_error (text ltt.first.error_buf)

-- The lines of the output, one after the other.
abbrev pub input_all :
    (Bytes → ListTargets → Option ListTargets) → List Bytes → ListTargets → Option ListTargets
input_all input [] ltt = some ltt
input_all input (buf ∷ bufs) ltt = input buf ltt >>= λ ltt'. input_all input bufs ltt'

abbrev pub scan_all : (Bytes → TargetList → TargetList) → List Bytes → TargetList → TargetList
scan_all scan [] ltt = ltt
scan_all scan (buf ∷ bufs) ltt = scan_all scan bufs (scan buf ltt)
