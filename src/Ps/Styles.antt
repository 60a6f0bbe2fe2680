-- ===== src/Ps/Styles.antt =====
-- ps.c: the table of styles.
use maketool.Common.{
  ℕ, zero, suc, ◌∙◌, ◌+◌, ◌-◌, ◌≡◌, ◌<◌, refl, ap, some, List, [], ◌∷◌, ◌++◌, ltb, ◌==◌,
  if◌then◌else◌, arith, inl, inr, Bool-cases, length, get_elem?, set, replicate, length-append,
}
use maketool.Ps.{
  PsStyle, PsDocument, ps_expand_styles, ps_foreground, ps_background, style_or, undefined_style,
}

module _ {Color : Type 0} where
  -- The colours of a style; a style beyond the table has none.
  abbrev pub style_at : List (PsStyle Color) → ℕ → PsStyle Color
  style_at [] i = undefined_style
  style_at (s ∷ ss) zero = s
  style_at (s ∷ ss) (suc i) = style_at ss i

  style_or-get : (ss : List (PsStyle Color)) (i : ℕ) → style_or (get_elem? ss i) ≡ style_at ss i
  unfolding style_or
  style_or-get [] i = refl
  style_or-get (s ∷ ss) zero = refl
  style_or-get (s ∷ ss) (suc i) = style_or-get ss i

  style_at-replicate : (n i : ℕ) → style_at (replicate n undefined_style) i ≡ undefined_style
  style_at-replicate zero i = refl
  style_at-replicate (suc n) zero = refl
  style_at-replicate (suc n) (suc i) = style_at-replicate n i

  style_at-grown :
      (ss : List (PsStyle Color)) (n i : ℕ)
      → style_at (ss ++ replicate n undefined_style) i ≡ style_at ss i
  style_at-grown [] n i = style_at-replicate n i
  style_at-grown (s ∷ ss) n zero = refl
  style_at-grown (s ∷ ss) n (suc i) = style_at-grown ss n i

  style_at-set :
      (ss : List (PsStyle Color)) (i j : ℕ) (s : PsStyle Color)
      → i < length ss
      → style_at (set ss i s) j ≡ (if i == j then s else style_at ss j)
  style_at-set [] i j s h = elim h [ ]
  style_at-set (t ∷ ss) zero zero s h = refl
  style_at-set (t ∷ ss) zero (suc j) s h = ground arith
  style_at-set (t ∷ ss) (suc i) zero s h = ground arith
  style_at-set (t ∷ ss) (suc i) (suc j) s h = style_at-set ss i j s (omega arith) ∙ ground arith

  length-replicate : (n : ℕ) (s : PsStyle Color) → length (replicate n s) ≡ n
  length-replicate zero s = refl
  length-replicate (suc n) s = ap suc (length-replicate n s)

  expand_styles-lt :
      (ps : PsDocument Color) (i : ℕ) → i < length (ps_expand_styles ps (i + 1)).styles
  unfolding ps_expand_styles
  expand_styles-lt ps i = elim (Bool-cases (ltb (length ps.styles) (i + 1))) [
    | inl y ↦ rw y (
        omega (
          arith,
          length-append ps.styles (replicate (i + 1 - length ps.styles) undefined_style),
          length-replicate (i + 1 - length ps.styles) undefined_style,
        ))
    | inr n ↦ rw n (ground arith)
  ]

  expand_styles-at :
      (ps : PsDocument Color) (n i : ℕ)
      → style_at (ps_expand_styles ps n).styles i ≡ style_at ps.styles i
  unfolding ps_expand_styles
  expand_styles-at ps n i = elim (Bool-cases (ltb (length ps.styles) n)) [
    | inl y ↦ rw y (style_at-grown ps.styles (n - length ps.styles) i)
    | inr m ↦ rw m refl
  ]

  set-expanded :
      (ps : PsDocument Color) (i j : ℕ) (s : PsStyle Color)
      → style_at (set (ps_expand_styles ps (i + 1)).styles i s) j
        ≡ (if i == j then s else style_at ps.styles j)
  set-expanded ps i j s =
      style_at-set (ps_expand_styles ps (i + 1)).styles i j s (expand_styles-lt ps i)
      ∙ rw (expand_styles-at ps (i + 1) j) refl

  old_style :
      (ps : PsDocument Color) (i : ℕ)
      → style_or (get_elem? (ps_expand_styles ps (i + 1)).styles i) ≡ style_at ps.styles i
  old_style ps i =
      style_or-get (ps_expand_styles ps (i + 1)).styles i ∙ expand_styles-at ps (i + 1) i

  -- ps_foreground and ps_background each set one colour of their style, keep the other colour of
  -- that style, and change no other style, whether the table has to grow or not.
  pub style_at-ps_colors :
      (ps : PsDocument Color) (i j : ℕ) (c : Color)
      → (style_at (ps_foreground ps i c).styles j ≡ (
          if i == j
          then record (style_at ps.styles i) { foreground = some c }
          else style_at ps.styles j))
        × (style_at (ps_background ps i c).styles j ≡ (
            if i == j
            then record (style_at ps.styles i) { background = some c }
            else style_at ps.styles j))
  unfolding ps_foreground ps_background
  style_at-ps_colors ps i j c = (
    set-expanded ps i j _ ∙ rw (old_style ps i) refl,
    set-expanded ps i j _ ∙ rw (old_style ps i) refl,
  )
