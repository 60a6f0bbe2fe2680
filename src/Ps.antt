-- ===== src/Ps.antt =====
-- ps.c: the PostScript document that a log is printed to. Its output is a list of operations; a
-- colour is an abstract value, since the program only hands it on to `fprintf`. A null pointer or
-- a read out of bounds is a fault, `none`.
pub mod Escape
pub mod Reader
pub mod Pages
pub mod Styles
use maketool.Common.{
  ℕ, zero, suc, ◌+◌, ◌-◌, ◌*◌, ◌/◌, Bool, true, false, Option, none, some, List, [], ◌∷◌, ◌++◌,
  length, get_elem?, ltb, leb, ◌==◌, if◌then◌else◌, ◌>>=◌, Bytes, ℤ, sub_ℕ, has_byte, codes, set,
  replicate,
}
use Prim.Native.Nat.{◌%◌}

-- The paper of the preferences.
pub record Paper : Type 0 where
  pub paper_width : ℕ
  pub paper_height : ℕ
  pub margin_left : ℕ
  pub margin_right : ℕ
  pub margin_top : ℕ
  pub margin_bottom : ℕ

-- A colour is `none` where its `defined` flag is not set.
pub record PsStyle (Color : Type 0) : Type 0 where
  pub foreground : Option Color
  pub background : Option Color

-- What the functions print: `%%Page: n n` with the page setup, the page trailer, `style B` with a
-- box at a height, and a line of text with its style and position.
pub data Output : Type 0 where
  begin_page : ℕ → Output
  end_page : Output
  fill_box : ℕ → ℤ → Output
  show_line : ℕ → ℕ → ℤ → Bytes → Output
  trailer : Output

pub record PsDocument (Color : Type 0) : Type 0 where
  pub out : List Output
  pub in_page : Bool
  pub page_num : ℕ
  pub num_pages : ℕ
  pub line : ℕ
  pub font_size : ℕ
  pub lines_per_page : ℕ
  pub styles : List (PsStyle Color)

abbrev line_spacing : ℕ
line_spacing = 2

abbrev indent : ℕ
indent = 36

-- ps_put_escaped_string: the bytes put for one byte, "\\%03o" for an escapable one
abbrev escapable : Bytes
escapable = b'\n' ∷ b'\r' ∷ b'\t' ∷ 8 ∷ 12 ∷ b'\\' ∷ b'(' ∷ b')' ∷ []

octal3 : ℕ → Bytes
octal3 c = b'\\' ∷ (48 + c / 64) ∷ (48 + (c / 8) % 8) ∷ (48 + c % 8) ∷ []

pub put_escaped : Bytes → Bytes
unfolding has_byte octal3
put_escaped [] = []
put_escaped (c ∷ s) = (if has_byte c escapable then octal3 c else c ∷ []) ++ put_escaped s

module _ {Color : Type 0} where
  -- ps_begin, for pages that are higher than their margins
  pub ps_begin : Paper → PsDocument Color
  ps_begin paper = record {
    out = [];
    in_page = false;
    page_num = 0;
    num_pages = 0;
    line = 0;
    font_size = 10;
    lines_per_page =
        (paper.paper_height - paper.margin_top - paper.margin_bottom) / (10 + line_spacing);
    styles = [];
  }

  -- ps_prologue, less the text that it writes: its assertion
  pub ps_prologue : PsDocument Color → Option (PsDocument Color)
  ps_prologue ps = if ltb 0 ps.num_pages then some ps else none

  -- ps_num_lines
  pub ps_num_lines : PsDocument Color → ℕ → PsDocument Color
  ps_num_lines ps n = record ps { num_pages = (n + ps.lines_per_page - 1) / ps.lines_per_page }

  abbrev undefined_style : PsStyle Color
  undefined_style = record { foreground = none; background = none }

  -- ps_expand_styles
  pub ps_expand_styles : PsDocument Color → ℕ → PsDocument Color
  ps_expand_styles ps n =
      if ltb (length ps.styles) n
      then record ps { styles = ps.styles ++ replicate (n - length ps.styles) undefined_style }
      else ps

  style_or : Option (PsStyle Color) → PsStyle Color
  style_or none = undefined_style
  style_or (some s) = s

  -- ps_foreground and ps_background
  pub ps_foreground : PsDocument Color → ℕ → Color → PsDocument Color
  unfolding ps_expand_styles style_or
  ps_foreground ps style c =
      let p = ps_expand_styles ps (style + 1) in
      record p {
        styles =
            set p.styles style
              (record (style_or (get_elem? p.styles style)) { foreground = some c });
      }

  pub ps_background : PsDocument Color → ℕ → Color → PsDocument Color
  unfolding ps_expand_styles style_or
  ps_background ps style c =
      let p = ps_expand_styles ps (style + 1) in
      record p {
        styles =
            set p.styles style
              (record (style_or (get_elem? p.styles style)) { background = some c });
      }

  -- ps_end_page
  pub ps_end_page : PsDocument Color → PsDocument Color
  ps_end_page ps = record ps {
    out = if ps.in_page then ps.out ++ end_page ∷ [] else ps.out;
    in_page = false;
  }

  -- ps_begin_page
  pub ps_begin_page : PsDocument Color → ℕ → PsDocument Color
  ps_begin_page ps n = record ps { out = ps.out ++ begin_page n ∷ []; page_num = n; in_page = true }

  -- ps_next_page
  pub ps_next_page : PsDocument Color → PsDocument Color
  unfolding ps_end_page ps_begin_page
  ps_next_page ps = let p = ps_end_page ps in ps_begin_page p (p.page_num + 1)

  line_output : Paper → PsDocument Color → Bytes → ℕ → ℕ → PsStyle Color → List Output
  line_output paper ps text style indent_level s =
      let y =
        sub_ℕ paper.paper_height
          (paper.margin_bottom + (ps.line + 1) * (ps.font_size + line_spacing)) in
      let x = paper.margin_left + indent_level * indent in
      let shown = show_line style x y (put_escaped text) ∷ [] in
      elim s.background [ none ↦ shown | some c ↦ fill_box style y ∷ shown ]

  -- ps_line, for a style that is not negative
  pub ps_line : Paper → PsDocument Color → Bytes → ℕ → ℕ → Option (PsDocument Color)
  unfolding line_output
  ps_line paper ps text style indent_level =
      let used = if leb (length ps.styles) style then 0 else style in
      let p = if ps.line == 0 then ps_next_page ps else ps in
      get_elem? p.styles used >>= λ s. some (record p {
        out = p.out ++ line_output paper p text used indent_level s;
        line = if p.line + 1 == p.lines_per_page then 0 else p.line + 1;
      })

  -- ps_end
  pub ps_end : PsDocument Color → List Output
  ps_end ps = (ps_end_page ps).out ++ trailer ∷ []
