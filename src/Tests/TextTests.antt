-- ===== src/Tests/TextTests.antt =====
-- Runs of util.c and progress.c.
use maketool.Common.{
  ◌^◌, ◌≡◌, refl, true, Option, none, some, List, [], ◌∷◌, arith, Bytes, codes, All, ◌==◌,
  if◌then◌else◌, pos,
}
use maketool.Estring.{Estring, append_chars}
use maketool.Estring.Bounds.{Appended, append_chars_lem}
use maketool.Util.Expand.{Expands}
use maketool.Util.Expand.Pieces.{Piece, lit, var, plain, when_set}
use maketool.Util.Paths.{is_absolute, Current, file_normalise, file_denormalise}
use maketool.Util.Paths.Denormalise.{file_denormalise-file_normalise}
use maketool.Util.Elapsed.{Mark, time_elapsed_str, value, InRange, Ends, time_elapsed_str-value}
use maketool.Progress.{Progress, progress_start, deltas}
use maketool.Progress.Reports.{Growing, progress_start-Growing}

abbrev padded : Estring
padded = record { data_ = some (codes "  log \n"); length_ = 7; available = 8 }

append_chars_lem_example : Appended padded (codes "file") (append_chars padded (codes "file"))
append_chars_lem_example = append_chars_lem padded (codes "file") (refl, omega arith) (omega arith)

-- The command for a file and a line, as in a preference: "vi %{l:+-l%l }%f".
abbrev vi_template : List Piece
vi_template =
    plain (lit b'v')
    ∷ plain (lit b'i')
    ∷ plain (lit 32)
    ∷ when_set b'l' (lit b'-' ∷ lit b'l' ∷ var b'l' ∷ lit 32 ∷ [])
    ∷ plain (var b'f')
    ∷ []

abbrev vi_values : Expands
vi_values c =
    if c == b'f' then some (codes "a.c") else if c == b'l' then some (codes "12") else none

abbrev at_home : Current
at_home = record { cached = none; process = codes "/home/joe" }

-- A file system in which every directory exists.
abbrev go : Bytes → Bytes → Option Bytes
go current dir = some (file_normalise current dir)

file_denormalise-file_normalise_example :
    file_denormalise true true
      (codes "/src")
      (codes "/home/joe")
      (file_normalise (codes "/src") (codes "a.c"))
    ≡ codes "a.c"
file_denormalise-file_normalise_example =
    file_denormalise-file_normalise (codes "/home/joe") (codes "/src") (codes "a.c") true
      (unfold is_absolute in refl) (λ e. absurd (cc))

abbrev start_mark : Mark
start_mark = record { sec = 10; usec = 900000 }

abbrev end_mark : Mark
end_mark = record { sec = 12; usec = 100000 }

time_elapsed_str-value_example :
    (value (time_elapsed_str (record { tv_sec = pos 3723; tv_usec = 500000 })) ≡ 3723)
    × All InRange (time_elapsed_str (record { tv_sec = pos 3723; tv_usec = 500000 }))
    × Ends (time_elapsed_str (record { tv_sec = pos 3723; tv_usec = 500000 })) 3723 500000
time_elapsed_str-value_example = time_elapsed_str-value 3723 500000

progress_start-Growing_example :
    Growing none (deltas (2 ^ 32) (progress_start 64).0 (32 ∷ 16 ∷ [])).1
progress_start-Growing_example =
    progress_start-Growing (2 ^ 32) 64 (32 ∷ 16 ∷ []) (omega arith) (omega arith) (omega arith)
      (omega arith)

abbrev long_run : Progress
long_run = record { p_where = 0; p_length = 20000000; p_lastpc = none }
