-- ===== src/Tests/TaskTests.antt =====
-- Runs of task.c, two chunks that cut a line in the middle, and of mqueue.c, messages of 3 bytes of
-- header.
use maketool.Common.{◌≡◌, refl, none, some, List, [], ◌∷◌, ◌++◌, arith, Bytes, codes, replicate, ℕ}
use maketool.Estring.{init}
use maketool.Task.Input.{split_line, task_lines, task_linemode_input}
use maketool.Mqueue.{MessageHeader}
use maketool.Task.Input.Chunks.{cut, lines, concat, task_lines-concat, task_linemode_input_overflow}

abbrev two_chunks : List Bytes
two_chunks = codes "cc -c a." ∷ (codes "c" ++ b'\n' ∷ codes "done") ∷ []

task_lines-concat_example : task_lines two_chunks ≡ some (lines (concat two_chunks))
unfolding cut
task_lines-concat_example =
    task_lines-concat two_chunks ((tt, omega arith), (((omega arith, tt), omega arith), tt))

task_linemode_input_overflow_example : task_linemode_input (replicate 1024 b'x') init ≡ none
task_linemode_input_overflow_example =
    task_linemode_input_overflow (replicate 1024 b'x') init (refl, refl) (unfold split_line in refl)
      (omega arith)

abbrev three_bytes : MessageHeader → Bytes
three_bytes h = h.hdr_msgid ∷ h.hdr_from ∷ h.hdr_length ∷ []

abbrev from_three_bytes : Bytes → MessageHeader
from_three_bytes (id ∷ from ∷ len ∷ []) = record {
  hdr_msgid = id;
  hdr_from = from;
  hdr_length = len;
}
from_three_bytes bytes = record { hdr_msgid = 0; hdr_from = 0; hdr_length = 0 }

abbrev three_bodies : List Bytes
three_bodies = codes "raise" ∷ [] ∷ codes "make" ∷ []

-- A property that is read as a whole.
abbrev whole_property : ℕ → Bytes → Bytes
whole_property n property = property ++ 0 ∷ []
