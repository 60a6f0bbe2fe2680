-- ===== src/Filter/Apply.antt =====
-- filter_replace_matches, filter_apply_one and filter_apply of filter.c. `regexec` is a parameter:
-- from a pattern and a line to the offsets of the subexpressions 0 to 8, or no match. A fault,
-- `none`, is an access out of bounds.
use maketool.Common.{
  ℕ, ◌+◌, ◌-◌, ◌*◌, ◌≡◌, ◌≤◌, Bool, true, false, not, ◌&&◌, ◌||◌, Option, none, some, List, [], ◌∷◌,
  ◌++◌, length, take, drop, ltb, leb, ◌==◌, if◌then◌else◌, ◌>>=◌, Bytes, str_eq,
}
use maketool.Estring.{Estring, text, truncate, append_char, append_chars, is_space}
use maketool.Filter.Types.{
  undefined, FilterCode, plain, is_undefined, is_done, FilterResult, Filter, Filters,
}

-- `regmatch_t`, with `none` for rm_so = -1
abbrev pub Matches : Type 0
Matches = ℕ → Option (ℕ × ℕ)

abbrev pub Regexec : Type 0
Regexec = Bytes → Bytes → Option Matches

-- regexec as POSIX has it: the offsets of a subexpression are in order, and within the line.
abbrev pub IsRegexec : Regexec → Type 0
IsRegexec regexec =
    (pattern line : Bytes) (m : Matches) (n so eo : ℕ)
    → regexec pattern line ≡ some m
    → m n ≡ some (so, eo)
    → (so ≤ eo) × (eo ≤ length line)

-- `matches[NUM_MATCHES]` has 9 elements.
unfoldable pub match_at : Matches → ℕ → Option (Option (ℕ × ℕ))
match_at matches n = if ltb n 9 then some (matches n) else none

-- the copy from line+rm_so of rm_eo-rm_so bytes; offsets that are not in the line are a fault
unfoldable pub append_match : Estring → Bytes → Option (ℕ × ℕ) → Option Estring
append_match out line none = some out
append_match out line (some (so, eo)) =
    if leb so eo && leb eo (length line)
    then append_chars out (take (eo - so) (drop so line))
    else none

-- the digit behind a backslash
unfoldable pub reference : ℕ → Bytes → Option ℕ
reference c [] = none
reference c (d ∷ s) = if c == b'\\' && leb b'1' d && leb d b'9' then some (d - b'0') else none

-- One round of the loop.
unfoldable pub replace_char : Bytes → Matches → Estring → ℕ → Option ℕ → Option Estring
unfolding match_at append_match
replace_char line matches out c none = append_char out c
replace_char line matches out c (some n) = match_at matches n >>= λ m. append_match out line m

unfoldable pub is_some : Option ℕ → Bool
is_some none = false
is_some (some n) = true

-- The flag says that the loop has just skipped to the digit of a reference.
unfoldable pub replace_loop : Bytes → Matches → Bool → Bytes → Estring → Option Estring
unfolding replace_char reference is_some
replace_loop line matches skip [] out = some out
replace_loop line matches true (c ∷ s) out = replace_loop line matches false s out
replace_loop line matches false (c ∷ s) out =
    replace_char line matches out c (reference c s) >>= λ out'.
    replace_loop line matches (is_some (reference c s)) s out'

-- filter_replace_matches
unfoldable pub filter_replace_matches : Bytes → Estring → Bytes → Matches → Option Estring
filter_replace_matches template out line matches =
    replace_loop line matches false template (truncate out)

-- `atoi`, for numbers that fit in an `int`; what is negative counts as 0.
digits_value : ℕ → Bytes → ℕ
digits_value n [] = n
digits_value n (c ∷ s) =
    let rest = digits_value (n * 10 + (c - b'0')) s in if leb b'0' c && leb c b'9' then rest else n

unfoldable pub skip_blanks : Bytes → Bytes
skip_blanks [] = []
skip_blanks (c ∷ s) = if is_space c then skip_blanks s else c ∷ s

unsigned_value : Bytes → ℕ
unfolding digits_value
unsigned_value [] = 0
unsigned_value (c ∷ s) = if c == b'+' then digits_value 0 s else digits_value 0 (c ∷ s)

unfoldable pub atoi : Bytes → ℕ
unfolding unsigned_value skip_blanks is_space
atoi s = unsigned_value (skip_blanks s)

-- The static variables that a line changes: filter_state, the buffer of filter_apply_one, and
-- total_stats.
pub record Engine : Type 0 where
  pub state : Bytes
  pub buf : Estring
  pub ntries : ℕ
  pub nmatches : ℕ

-- filter_init
unfoldable pub filter_init : Engine → Engine
filter_init e = record e { state = [] }

unfoldable pub is_set : Option Bytes → Bool
is_set none = false
is_set (some s) = true

unfoldable pub old_text : Option Bytes → Bytes
old_text none = []
old_text (some s) = s

-- the summary, once its template is filled in
unfoldable pub new_summary : FilterCode → Option Bytes → Bytes → Option Bytes
new_summary code old [] = old
new_summary code old (c ∷ s) =
    if is_set old && (code.pending || is_done code.kind)
    then some (old_text old ++ (32 ∷ c ∷ s))
    else some (c ∷ s)

-- the step on `f->summary_str`
unfoldable pub apply_summary :
    Filter
    → Bytes
    → Matches
    → Estring
    → Option Bytes
    → Option Bytes
    → Option (Option Bytes × Estring)
unfolding new_summary is_set old_text
apply_summary f line m buf old none = some (old, buf)
apply_summary f line m buf old (some []) = some (some [], buf)
apply_summary f line m buf old (some (c ∷ s)) =
    filter_replace_matches (c ∷ s) buf line m >>= λ buf'.
    some (new_summary f.code old (text buf'), buf')

unfoldable pub nonempty_or : Option Bytes → Bytes → Option Bytes
nonempty_or old [] = old
nonempty_or old (c ∷ s) = some (c ∷ s)

unfoldable pub positive_or : ℕ → ℕ → ℕ
positive_or old n = if ltb 0 n then n else old

-- the end of filter_apply_one: the result's code
unfoldable pub apply_code : FilterCode → FilterCode → FilterCode
apply_code code old =
    let set =
      if is_done code.kind && not code.pending
      then record old { pending = false }
      else if not (is_undefined code.kind)
      then code
      else old in
    if code.pending then record set { pending = true } else set

-- the result, from the texts of the line, column and file templates and the summary
unfoldable pub matched_result :
    Filter → FilterResult → Bytes → Bytes → Option Bytes → Bytes → FilterResult
unfolding nonempty_or positive_or
matched_result f res line_text col_text summary file_text = record {
  code = apply_code f.code res.code;
  file = nonempty_or res.file file_text;
  line = positive_or res.line (atoi line_text);
  column = positive_or res.column (atoi col_text);
  summary = summary;
}

unfoldable pub matched_engine : Filter → Engine → Estring → Engine
matched_engine f e buf = record e { state = f.outstate; buf = buf; nmatches = e.nmatches + 1 }

-- filter_apply_one behind a successful regexec()
unfoldable pub apply_match :
    Filter → Bytes → Matches → Engine → FilterResult → Option (Engine × FilterResult)
apply_match f line m e res = filter_replace_matches f.line_str e.buf line m >>= λ buf1.
    filter_replace_matches f.col_str buf1 line m >>= λ buf2.
    apply_summary f line m buf2 res.summary f.summary_str >>= λ (summary, buf3).
    filter_replace_matches f.file_str buf3 line m >>= λ buf4.
    some (matched_engine f e buf4, matched_result f res (text buf1) (text buf2) summary (text buf4))

-- What filter_apply_one returns: whether the filter matched, and the new variables.
abbrev pub Applied : Type 0
Applied = Bool × Engine × FilterResult

unfoldable pub apply_regexec :
    Filter → Bytes → Engine → FilterResult → Option Matches → Option Applied
apply_regexec f line e res none = some (false, e, res)
apply_regexec f line e res (some m) =
    apply_match f line m e res >>= λ (e', res'). some (true, e', res')

unfoldable pub filter_apply_one : Regexec → Filter → Bytes → Engine → FilterResult → Option Applied
unfolding apply_regexec
filter_apply_one regexec f line e res =
    if str_eq e.state f.instate
    then apply_regexec f line (record e { ntries = e.ntries + 1 }) res (regexec f.regexp line)
    else some (false, e, res)

-- the loop of filter_apply
unfoldable pub apply_loop :
    Regexec → List Filter → Bytes → Engine → FilterResult → Option (Engine × FilterResult)
apply_loop regexec [] line e res =
    some (record e { state = [] }, record res { code = plain undefined })
apply_loop regexec (f ∷ fs) line e res =
    filter_apply_one regexec f line e res >>= λ (matched, e', res'). elim matched [
      | true ↦ some (e', res')
      | false ↦ apply_loop regexec fs line e' res'
    ]

-- `line[0]`
unfoldable pub first_byte : Bytes → ℕ
first_byte [] = 0
first_byte (c ∷ s) = c

-- filter_apply. The index (int)line[0] is negative from 128 on, where `char` is signed.
unfoldable pub filter_apply :
    Regexec → Filters → Bytes → Engine → FilterResult → Option (Engine × FilterResult)
unfolding first_byte
filter_apply regexec fs line e res =
    if ltb (first_byte line) 128
    then apply_loop regexec (fs.by_lead (first_byte line)) line e res
    else none
