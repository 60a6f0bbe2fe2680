-- ===== src/Autoconf/Help/Lines.antt =====
-- autoconf.c, configure_help_input: continuation lines that continue no option.
use maketool.Common.{
  ℕ, ◌<◌, ◌≡◌, refl, ap, ◌∙◌, true, false, Option, none, some, List, [], ◌∷◌, ◌++◌, arith, ◌⊎◌,
  ◌>>=◌, Bytes, codes, strip_prefix, inl, inr, Bool-cases, Option-cases,
}
use mathlib.Core.Path.{subst}
use maketool.Estring.{Estring, init, text, append_each, append_char, append_string, is_space}
use maketool.Estring.Text.{append_char-text, append_string-text}
use maketool.Autoconf.Options.{Category, Argtype, AcOption, add_option}
use maketool.Autoconf.Status.{take_run}
use maketool.Autoconf.Help.{
  Configure, goes_on, meta_argument, parse_help, parse_option_line, parse_pending, option_line,
  continuation_line, category_line, is_indented, is_fluff, configure_help_input,
  configure_help_reap, help_lines,
}

-- A computation that goes on to a fault is a fault.
bind-none {ℓ} :
    {A B : Type ℓ} (o : Option A) (f : A → Option B) → ((a : A) → f a ≡ none) → (o >>= f) ≡ none
bind-none none f h = refl
bind-none (some a) f h = h a

parse_help-nameless :
    (cat : Category) (t : Argtype) (meta : Estring) (x : Bytes) (opts : List AcOption)
    → parse_help cat init t meta x opts ≡ none
unfolding parse_help add_option
parse_help-nameless cat t meta [] opts = refl
parse_help-nameless cat t meta (c ∷ x) opts =
    bind-none (append_each init _) _ (λ help. bind-none (append_each init _) _ (λ def. refl))

-- A line that begins with a space has no name.
parse_option_line-space :
    (cat : Category) (c : ℕ) (s : Bytes) (opts : List AcOption)
    → is_space c ≡ true
    → parse_option_line cat (c ∷ s) opts ≡ none
parse_option_line-space cat c s opts h =
    let empty : take_run goes_on (c ∷ s) ≡ ([], c ∷ s) = (unfold take_run goes_on in rw h refl) in
    unfold parse_option_line in
    rw empty (
      unfold append_each in
      bind-none (append_each init (meta_argument (c ∷ s)).1.0) _ (λ meta.
        parse_help-nameless cat (meta_argument (c ∷ s)).0 meta (meta_argument (c ∷ s)).1.1 opts))

-- What is pending begins with a space.
abbrev Stray : Estring → Type 0
Stray e = (c : ℕ) × (s : Bytes) × (text e ≡ c ∷ s) × (is_space c ≡ true) × (0 < e.length_)

parse_pending-Stray : (st : Configure) → Stray st.optline → parse_pending st ≡ none
unfolding parse_pending
parse_pending-Stray st (c, s, t, sp, pos) =
    rw t
      (rw (parse_option_line-space st.current_category c s st.all_options sp) (ground (arith, pos)))

abbrev kept : Configure → Option Configure → Estring
kept st none = st.optline
kept st (some st') = st'.optline

continuation_line-Stray :
    (line : Bytes) (st st' : Configure)
    → (text st.optline ≡ []) ⊎ Stray st.optline
    → continuation_line line st ≡ some st'
    → Stray st'.optline
unfolding continuation_line
continuation_line-Stray line st st' start h = elim (Option-cases (append_char st.optline b' ')) [
  | inl p ↦ absurd (cc (rw p at h))
  | inr (e1, p) ↦
      let rest = (take_run is_space line).1 in
      elim (Option-cases (append_string e1 (some rest))) [
        | inl q ↦ absurd (cc (rw (p, q) at h))
        | inr (e2, q) ↦
            let same : some (record st { optline = e2 }) ≡ some st' = rw (p, q) at h in
            let (t1, l1) = append_char-text st.optline e1 b' ' p in
            let (t2, l2) = append_string-text e1 e2 rest q in
            let whole = t2 ∙ ap (λ x. x ++ rest) t1 in
            subst Stray (ap (λ o. kept st o) same) (elim start [
              | inl e ↦ (
                b' ',
                rest,
                whole ∙ ap (λ x. (x ++ b' ' ∷ []) ++ rest) e,
                (unfold is_space in refl),
                omega (arith, l1, l2),
              )
              | inr (c, s, t, sp, pos) ↦ (
                c,
                (s ++ b' ' ∷ []) ++ rest,
                whole ∙ ap (λ x. (x ++ b' ' ∷ []) ++ rest) t,
                sp,
                omega (arith, l1, l2),
              )
            ])
      ]
]

-- A line behind a stray continuation is a fault, or leaves it.
configure_help_input-Stray :
    (line : Bytes) (st : Configure)
    → Stray st.optline
    → (configure_help_input line st ≡ none)
      ⊎ ((st' : Configure) × (configure_help_input line st ≡ some st') × Stray st'.optline)
unfolding configure_help_input
configure_help_input-Stray line st stray =
    let pending = parse_pending-Stray st stray in
    elim (Bool-cases (is_fluff line)) [
      | inl y ↦ inr (st, rw y refl, stray)
      | inr n ↦ elim (Option-cases (strip_prefix (codes "  --") line)) [
        | inr (rest, p) ↦ inl (rw n (rw p (unfold option_line in rw pending refl)))
        | inl p ↦ elim (Bool-cases (is_indented line)) [
          | inr i ↦ inl (rw n (rw p (rw i (unfold category_line in rw pending refl))))
          | inl i ↦ elim (Option-cases (continuation_line line st)) [
            | inl q ↦ inl (rw n (rw p (rw i q)))
            | inr (st', q) ↦
                inr (st', rw n (rw p (rw i q)), continuation_line-Stray line st st' (inr stray) q)
          ]
        ]
      ]
    ]

Stray-lines :
    (lines : List Bytes) (st : Configure)
    → Stray st.optline
    → (help_lines lines st >>= configure_help_reap) ≡ none
unfolding help_lines configure_help_reap
Stray-lines [] st stray = rw (parse_pending-Stray st stray) refl
Stray-lines (line ∷ lines) st stray = elim (configure_help_input-Stray line st stray) [
  | inl p ↦ rw p refl
  | inr (st', p, stray') ↦ rw p (Stray-lines lines st' stray')
]

-- Where a line that begins with three spaces, but is no option, comes when no option is pending, the run ends in a
-- fault, whatever lines come behind it: it becomes an option line of its own, with a null pointer for a name.
pub help_lines-stray :
    (line : Bytes) (lines : List Bytes) (st : Configure)
    → is_indented line ≡ true
    → is_fluff line ≡ false
    → strip_prefix (codes "  --") line ≡ none
    → text st.optline ≡ []
    → (help_lines (line ∷ lines) st >>= configure_help_reap) ≡ none
unfolding help_lines configure_help_input
help_lines-stray line lines st i n p empty = elim (Option-cases (continuation_line line st)) [
  | inl q ↦ rw n (rw p (rw i (rw q refl)))
  | inr (st', q) ↦ rw n (
      rw p
        (rw i (rw q (Stray-lines lines st' (continuation_line-Stray line st st' (inl empty) q)))))
]
