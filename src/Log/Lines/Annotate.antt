-- ===== src/Log/Lines/Annotate.antt =====
-- log.c: the text that log_update_build_start gives to the rootmost record.
use maketool.Common.{
  ℕ, ◌≤◌, ◌≡◌, refl, false, Bool, Option, none, some, List, [], ◌∷◌, arith, ◌||◌, Bytes, codes, All,
  map, length, get_elem?, ltb, if◌then◌else◌, ◌>>=◌, zero, suc, inl, inr, Bool-cases,
}
use mathlib.Core.Path.{subst}
use maketool.Estring.{Estring, init, text, append_string}
use maketool.Estring.Bounds.{IsValid, Appended, init-IsValid, append_printf_lem}
use maketool.Estring.Text.{append_string_short}
use maketool.Filter.Types.{FilterResult}
use maketool.Log.Records.{LogRec, Log, Node}
use maketool.Log.Lines.{
  Surroundings, append_count, annotate_errors, annotate_warnings, log_build_annotate, set_row_text,
  annotate_root,
}
use maketool.Log.Lines.Kept.{skeleton}
use maketool.Log.Lines.Stack.{HasRow}

-- The translated counts are within the bound of glib, which is at most 1023.
abbrev pub ShortCounts : Surroundings → Type 0
ShortCounts env =
    (n : ℕ)
    → (length (env.errors_text n) ≤ env.bound (env.errors_text n))
      × (env.bound (env.errors_text n) ≤ 1023)
      × (length (env.warnings_text n) ≤ env.bound (env.warnings_text n))
      × (env.bound (env.warnings_text n) ≤ 1023)

-- Every record holds a line of at most 1023 bytes.
abbrev pub ShortLines : List (Bytes × FilterResult) → Type 0
ShortLines rs = All (λ r. length r.0 ≤ 1023) rs

-- Some text is appended, or none.
abbrev Extended : Option Estring → Type 0
Extended r = (e : Estring) × (r ≡ some e) × IsValid e

Appended-Extended : (e : Estring) (s : Bytes) (r : Option Estring) → Appended e s r → Extended r
Appended-Extended e s r (e', p, t, v) = (e', p, v)

append_count_total :
    (env : Surroundings) (pre s : Bytes) (e : Estring)
    → IsValid e
    → length pre ≤ 1023
    → length s ≤ env.bound s
    → env.bound s ≤ 1023
    → Extended (append_string e (some pre) >>= λ e1. append_count env s e1)
append_count_total env pre s e v short fits bound =
    let (e1, p, t, v1) = append_string_short e (some pre) v short in
    let (e2, q, v2) =
      Appended-Extended e1 s (append_count env s e1)
        (append_printf_lem e1 (env.bound s) s v1 fits bound) in
    (e2, rw p q, v2)

module _ (env : Surroundings) (short : ShortCounts env) (n : ℕ) (e : Estring) (v : IsValid e) where
  annotate_errors_total : Extended (annotate_errors env n e)
  unfolding annotate_errors
  annotate_errors_total = elim (Bool-cases (ltb 0 n)) [
    | inl y ↦ rw y (
        append_count_total env (codes " (") (env.errors_text n) e v (omega arith) (short n).0
          (short n).1)
    | inr m ↦ rw m (e, refl, v)
  ]

  annotate_warnings_total : (follows : Bool) → Extended (annotate_warnings env follows n e)
  unfolding annotate_warnings
  annotate_warnings_total follows = elim (Bool-cases (ltb 0 n)) [
    | inl y ↦ rw y (
        append_count_total env (if follows then codes ", " else codes " (") (env.warnings_text n) e
          v (ground arith) (short n).2 (short n).3)
    | inr m ↦ rw m (e, refl, v)
  ]

log_build_annotate_total :
    (env : Surroundings) (errors warnings : ℕ) (e : Estring)
    → ShortCounts env
    → IsValid e
    → Extended (log_build_annotate env errors warnings e)
unfolding log_build_annotate
log_build_annotate_total env errors warnings e short v =
    let (e1, p1, v1) = annotate_errors_total env short errors e v in
    let (e2, p2, v2) = annotate_warnings_total env short warnings e1 v1 (ltb 0 errors) in
    elim (Bool-cases (ltb 0 errors || ltb 0 warnings)) [
      | inl y ↦
          let (e3, p3, t3, v3) = append_string_short e2 (some (codes ")")) v2 (omega arith) in
          (e3, rw (p1, p2, y) p3, v3)
      | inr n ↦ (e2, rw (p1, p2, n) refl, v2)
    ]

found-ShortLines :
    (log : List LogRec) (i : ℕ) (lr : LogRec)
    → ShortLines (map skeleton log)
    → get_elem? log i ≡ some lr
    → length lr.line ≤ 1023
found-ShortLines [] i lr h e = absurd (cc)
found-ShortLines (r ∷ rs) zero lr (h, hs) e =
    subst (λ o. length (elim o [ none ↦ [] | some r ↦ r.line ]) ≤ 1023) e h
found-ShortLines (r ∷ rs) (suc i) lr (h, hs) e = found-ShortLines rs i lr hs e

-- Where the line of the root and the counts are short, the rootmost record gets its new text.
pub annotate_root_total :
    (env : Surroundings) (st : Log) (n : Node)
    → ShortCounts env
    → ShortLines (map skeleton st.log)
    → HasRow st.log n
    → (st' : Log) × (annotate_root env st (some n) ≡ some st')
      × (st'.log ≡ st.log)
      × (st'.node_stack ≡ st.node_stack)
unfolding annotate_root
annotate_root_total env st n counts lines (bs, row, found, node) =
    let (start, p, t, v) =
      append_string_short init (some bs.line) init-IsValid
        (found-ShortLines st.log n.place bs lines found) in
    let (e, q, w) = log_build_annotate_total env st.num_errors st.num_warnings start counts v in
    (
      record st { rows = set_row_text row (text e) st.rows; num_ew_changed = false },
      rw found (rw node (rw p (rw q refl))),
      refl,
      refl,
    )
