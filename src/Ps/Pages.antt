-- ===== src/Ps/Pages.antt =====
-- ps.c: the pages of a printed log.
use maketool.Common.{
  ℕ, zero, suc, none, lt→ltb, le→ltb, ◌/◌, ◌≢◌, ◌∙◌, ◌+◌, ◌-◌, ◌*◌, ◌≡◌, ◌<◌, refl, sym, ap,
  get_elem?-lt, true, false, Option, some, List, [], ◌∷◌, ◌++◌, leb, ◌==◌, if◌then◌else◌, ◌>>=◌,
  Bytes, arith, inl, inr, Bool-cases, length,
}
use native.Mathlib.Nat.{add-zero, zero-mul, div-eq_of_lt}
use maketool.Ps.{
  Paper, PsStyle, PsDocument, ps_line, ps_prologue, ps_num_lines, ps_next_page, ps_end_page, ps_end,
  line_output,
}
use maketool.Ps.Reader.{
  pages, pages-append, pages-close, new_page, one_more, count_step, start_count, page_total,
  last_page,
}

-- A line to print: its text, style and indentation.
abbrev pub Line : Type 0
Line = Bytes × ℕ × ℕ

no_page_yet : (lpp : ℕ) → 0 < lpp → (0 + lpp - 1) / lpp ≡ 0
no_page_yet lpp h = div-eq_of_lt (omega (arith, h))

pages_positive :
    (n line lpp pg : ℕ) → 0 < n → n + (if line == 0 then 0 else lpp - line) ≡ pg * lpp → 0 < pg
pages_positive n line lpp zero pos h = absurd (omega (arith, h, zero-mul lpp))
pages_positive n line lpp (suc pg) pos h = omega arith

module _ {Color : Type 0} where
  pub print_lines : Paper → PsDocument Color → List Line → Option (PsDocument Color)
  print_lines paper ps [] = some ps
  print_lines paper ps ((text, style, level) ∷ ls) =
      ps_line paper ps text style level >>= λ p. print_lines paper p ls

  -- After k lines.
  pub record Printed (ps : PsDocument Color) (k : ℕ) : Type 0 where
    pub has_style : 0 < length ps.styles
    pub some_lines : 0 < ps.lines_per_page
    pub line_lt : ps.line < ps.lines_per_page
    pub count :
        k + (if ps.line == 0 then 0 else ps.lines_per_page - ps.line)
        ≡ ps.page_num * ps.lines_per_page
    pub open_page : ps.line ≢ 0 → ps.in_page ≡ true
    pub well_formed : pages false 0 ps.out ≡ some (ps.in_page, ps.page_num)

  next_page-pages :
      (ps : PsDocument Color)
      → pages false 0 ps.out ≡ some (ps.in_page, ps.page_num)
      → pages false 0 (ps_next_page ps).out ≡ some (true, ps.page_num + 1)
  unfolding ps_next_page
  next_page-pages ps h =
      pages-append false 0 _ _ false ps.page_num (pages-close ps.in_page ps.page_num ps.out h)
      ∙ new_page ps.page_num

  line_output-pages :
      (paper : Paper) (ps : PsDocument Color) (text : Bytes) (style level n : ℕ) (s : PsStyle Color)
      → pages true n (line_output paper ps text style level s) ≡ some (true, n)
  unfolding pages line_output
  line_output-pages paper ps text style level n s = ground arith

  -- the document in which ps_line puts its line
  with_page : PsDocument Color → PsDocument Color
  with_page ps = if ps.line == 0 then ps_next_page ps else ps

  record Ready (ps p : PsDocument Color) : Type 0 where
    styles_same : p.styles ≡ ps.styles
    lines_same : p.lines_per_page ≡ ps.lines_per_page
    line_same : p.line ≡ ps.line
    num_same : p.num_pages ≡ ps.num_pages
    number : p.page_num ≡ (if ps.line == 0 then ps.page_num + 1 else ps.page_num)
    inside : pages false 0 p.out ≡ some (true, p.page_num)
    in_page_true : p.in_page ≡ true

  with_page-Ready : (ps : PsDocument Color) (k : ℕ) → Printed ps k → Ready ps (with_page ps)
  unfolding with_page
  with_page-Ready ps k v = elim (Bool-cases (ps.line == 0)) [
    | inl y ↦ rw y (
        unfold ps_next_page in
        record {
          styles_same = refl;
          lines_same = refl;
          line_same = refl;
          num_same = refl;
          number = ground arith;
          inside = next_page-pages ps v.well_formed;
          in_page_true = refl;
        })
    | inr n ↦ rw n (record {
      styles_same = refl;
      lines_same = refl;
      line_same = refl;
      num_same = refl;
      number = ground arith;
      inside = v.well_formed ∙ ap (λ b. some (b, ps.page_num)) (v.open_page (ground arith));
      in_page_true = v.open_page (ground arith);
    })
  ]

  used_style : PsDocument Color → ℕ → ℕ
  used_style ps style = if leb (length ps.styles) style then 0 else style

  used_style-lt :
      (ps : PsDocument Color) (style : ℕ)
      → 0 < length ps.styles
      → used_style ps style < length ps.styles
  unfolding used_style
  used_style-lt ps style h = ground arith

  record LinePrinted (ps p : PsDocument Color) (k : ℕ) : Type 0 where
    printed : Printed p (k + 1)
    num_pages_same : p.num_pages ≡ ps.num_pages
    lines_per_page_same : p.lines_per_page ≡ ps.lines_per_page

  after_line :
      (paper : Paper) (ps : PsDocument Color) (text : Bytes) (style level k : ℕ) (s : PsStyle Color)
      → Printed ps k
      → (p : PsDocument Color) → Ready ps p
      → LinePrinted ps
          (record p {
            out = p.out ++ line_output paper p text style level s;
            line = if p.line + 1 == p.lines_per_page then 0 else p.line + 1;
          })
          k
  after_line paper ps text style level k s v p r = record {
    printed = record {
      has_style = rw r.styles_same v.has_style;
      some_lines = rw r.lines_same v.some_lines;
      line_lt = ground (arith, r.lines_same, r.line_same, v.line_lt);
      count =
          rw (r.line_same, r.lines_same, r.number)
            (count_step k ps.line ps.lines_per_page ps.page_num v.line_lt v.count);
      open_page = λ _. r.in_page_true;
      well_formed =
          pages-append false 0 p.out _ true p.page_num r.inside
          ∙ line_output-pages paper p text style level p.page_num s
          ∙ ap (λ b. some (b, p.page_num)) (sym r.in_page_true);
    };
    num_pages_same = r.num_same;
    lines_per_page_same = r.lines_same;
  }

  ps_line-Printed :
      (paper : Paper) (ps : PsDocument Color) (text : Bytes) (style level k : ℕ)
      → Printed ps k
      → (p : PsDocument Color) × (ps_line paper ps text style level ≡ some p) × LinePrinted ps p k
  unfolding ps_line with_page used_style
  ps_line-Printed paper ps text style level k v =
      let r = with_page-Ready ps k v in
      let (s, e) =
        get_elem?-lt ps.styles (used_style ps style) (used_style-lt ps style v.has_style) in
      (
        _,
        rw (r.styles_same, e) refl,
        after_line paper ps text (used_style ps style) level k s v (with_page ps) r,
      )

  -- Printing more lines.
  record LinesPrinted (ps p : PsDocument Color) (k : ℕ) : Type 0 where
    all_printed : Printed p k
    num_pages_kept : p.num_pages ≡ ps.num_pages
    lines_per_page_kept : p.lines_per_page ≡ ps.lines_per_page

  print_lines-Printed :
      (paper : Paper) (ls : List Line) (ps : PsDocument Color) (k : ℕ)
      → Printed ps k
      → (p : PsDocument Color) × (print_lines paper ps ls ≡ some p)
        × LinesPrinted ps p (k + length ls)
  unfolding print_lines
  print_lines-Printed paper [] ps k v = (
    ps,
    refl,
    rw add-zero (record { all_printed = v; num_pages_kept = refl; lines_per_page_kept = refl }),
  )
  print_lines-Printed paper ((text, style, level) ∷ ls) ps k v =
      let (p, e, lp) = ps_line-Printed paper ps text style level k v in
      let (q, e', lq) = print_lines-Printed paper ls p (k + 1) lp.printed in
      (
        q,
        rw e e',
        record {
          all_printed = rw (one_more k (length ls)) lq.all_printed;
          num_pages_kept = lq.num_pages_kept ∙ lp.num_pages_same;
          lines_per_page_kept = lq.lines_per_page_kept ∙ lp.lines_per_page_same;
        },
      )

  -- A document in which nothing has been printed, that has a style and room for a line.
  pub record Fresh (ps : PsDocument Color) : Type 0 where
    pub no_output : ps.out ≡ []
    pub no_page : ps.in_page ≡ false
    pub page_zero : ps.page_num ≡ 0
    pub line_zero : ps.line ≡ 0
    pub a_style : 0 < length ps.styles
    pub room : 0 < ps.lines_per_page

  -- log_print from ps_num_lines on, with the colours set before: ps_prologue, the lines.
  pub print_log : Paper → PsDocument Color → List Line → Option (PsDocument Color)
  unfolding print_lines
  print_log paper ps ls = ps_prologue (ps_num_lines ps (length ls)) >>= λ p. print_lines paper p ls

  -- Printing one or more lines on a document of at least one style and one line per page, as
  -- log_print does it, with ps_num_lines told their number, ps_prologue and the lines, always
  -- succeeds. The pages that come out are numbered from 1 without a gap, everything is drawn inside
  -- a page, every page is ended, and there are as many as ps_num_lines computed. Printing no lines
  -- fails the assertion of ps_prologue.
  pub ps_end-print_lines :
      (paper : Paper) (l : Line) (ls : List Line) (ps : PsDocument Color)
      → Fresh ps
      → ((p : PsDocument Color) × (print_log paper ps (l ∷ ls) ≡ some p)
          × (pages false 0 (ps_end p)
              ≡ some (false, (ps_num_lines ps (length (l ∷ ls))).num_pages)))
        × (print_log paper ps [] ≡ none)
  unfolding print_log ps_prologue ps_num_lines ps_end ps_end_page
  ps_end-print_lines paper l ls ps f =
      let lines = l ∷ ls in
      let start = ps_num_lines ps (length lines) in
      let (p, e, lp) = print_lines-Printed paper lines start 0 (record {
        has_style = f.a_style;
        some_lines = f.room;
        line_lt = omega arith;
        count = start_count ps.line ps.page_num ps.lines_per_page f.line_zero f.page_zero;
        open_page = λ h. absurd (h f.line_zero);
        well_formed = rw (f.no_output, f.no_page, f.page_zero) (unfold pages in refl);
      }) in
      let v = lp.all_printed in
      let total : p.page_num ≡ start.num_pages =
        page_total (length lines) p.line p.lines_per_page p.page_num v.line_lt v.count
        ∙ rw lp.lines_per_page_kept refl in
      let some_page =
        pages_positive (0 + length lines) p.line p.lines_per_page p.page_num (omega arith)
          v.count in
      (
        (
          p,
          rw (lt→ltb 0 start.num_pages (omega (arith, some_page, total))) e,
          pages-append false 0 _ _ false p.page_num
                (pages-close p.in_page p.page_num p.out v.well_formed)
              ∙ last_page p.page_num
              ∙ ap (λ (n : ℕ). some (false, n)) total,
        ),
        rw
            (le→ltb 0 (ps_num_lines ps 0).num_pages
              (omega (arith, no_page_yet ps.lines_per_page f.room)))
            refl,
      )
