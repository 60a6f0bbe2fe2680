-- ===== src/Tests/PrintTests.antt =====
-- Runs of ps.c. A colour is a number.
use maketool.Common.{ℕ, ◌≡◌, refl, false, none, some, List, [], ◌∷◌, arith, codes, length}
use maketool.Ps.{Paper, PsDocument, ps_num_lines, ps_end}
use maketool.Ps.Reader.{pages}
use maketool.Ps.Pages.{Line, print_log, ps_end-print_lines}

abbrev a4 : Paper
a4 = record {
  paper_width = 595;
  paper_height = 842;
  margin_left = 36;
  margin_right = 36;
  margin_top = 36;
  margin_bottom = 36;
}

-- Two lines on a page.
abbrev blank : PsDocument ℕ
blank = record {
  out = [];
  in_page = false;
  page_num = 0;
  num_pages = 0;
  line = 0;
  font_size = 10;
  lines_per_page = 2;
  styles = record { foreground = some 7; background = none } ∷ [];
}

abbrev first_line : Line
first_line = (codes "cc -c a.c", 0, 0)

abbrev two_lines : List Line
two_lines = (codes "a.c:1: bad", 2, 1) ∷ (codes "make: error", 0, 0) ∷ []

ps_end-print_lines_example :
    ((p : PsDocument ℕ) × (print_log a4 blank (first_line ∷ two_lines) ≡ some p)
      × (pages false 0 (ps_end p)
          ≡ some (false, (ps_num_lines blank (length (first_line ∷ two_lines))).num_pages)))
    × (print_log a4 blank [] ≡ none)
ps_end-print_lines_example = ps_end-print_lines a4 first_line two_lines blank (record {
  no_output = refl;
  no_page = refl;
  page_zero = refl;
  line_zero = refl;
  a_style = omega arith;
  room = omega arith;
})
