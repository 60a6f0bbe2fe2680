-- ===== src/Task/Input.antt =====
-- task.c, task_linemode_input: the output of a child process is split into lines. A chunk is what
-- one read() gives, up to its first NUL byte; a fault, `none`, is a write out of bounds.
pub mod Chunks
use maketool.Common.{
  ℕ, zero, suc, ◌+◌, Bool, true, false, Option, none, some, List, [], ◌∷◌, ◌++◌, length, ◌==◌,
  if◌then◌else◌, ◌>>=◌, Bytes, ltb,
}
use maketool.Estring
use maketool.Estring.{Estring, text, append_string, truncate}

-- strchr(buf, '\n'): the bytes in front of the first newline, and those behind it
unfoldable pub split_line : Bytes → Option (Bytes × Bytes)
split_line [] = none
split_line (c ∷ s) =
    let rest = split_line s in
    if c == b'\n' then some ([], s) else (rest >>= λ (line, tail). some (c ∷ line, tail))

-- What task_linemode_input does: the lines given to the input function, and `linebuf`.
abbrev pub Split : Type 0
Split = Option (List Bytes × Estring)

-- One round of the loop of task_linemode_input; `self` is the rest of the loop.
unfoldable pub linemode_round :
    (Bytes → Estring → Split) → Bytes → Estring → Option (Bytes × Bytes) → Split
linemode_round self buf linebuf none = append_string linebuf (some buf) >>= λ e. some ([], e)
linemode_round self buf linebuf (some (line, tail)) = append_string linebuf (some line) >>= λ e.
    self tail (truncate e) >>= λ (lines, e'). some (text e ∷ lines, e')

-- the loop of task_linemode_input
unfoldable pub linemode_loop : ℕ → Bytes → Estring → Split
unfolding linemode_round split_line
linemode_loop zero buf linebuf = none
linemode_loop (suc fuel) [] linebuf = some ([], linebuf)
linemode_loop (suc fuel) (c ∷ s) linebuf =
    linemode_round (linemode_loop fuel) (c ∷ s) linebuf (split_line (c ∷ s))

-- task_linemode_input for a chunk; every round takes a newline away, so this fuel is enough
unfoldable pub task_linemode_input : Bytes → Estring → Split
unfolding linemode_loop
task_linemode_input buf linebuf = linemode_loop (suc (length buf)) buf linebuf

-- task_linemode_input at the end of the input
unfoldable pub task_linemode_end : Estring → List Bytes
task_linemode_end linebuf = if ltb 0 linebuf.length_ then text linebuf ∷ [] else []

-- The chunks that task_input_func and task_reap_func give to it.
unfoldable pub task_input : List Bytes → Estring → Split
task_input [] linebuf = some ([], linebuf)
task_input (chunk ∷ chunks) linebuf = task_linemode_input chunk linebuf >>= λ (lines, e).
    task_input chunks e >>= λ (more, e'). some (lines ++ more, e')

-- All the lines of a task.
unfoldable pub task_lines : List Bytes → Option (List Bytes)
task_lines chunks =
    task_input chunks Estring.init >>= λ (lines, e). some (lines ++ task_linemode_end e)
