-- ===== src/Tests/FilterTests.antt =====
-- Runs of filter.c: one filter for a compiler's errors.
use maketool.Common.{
  ◌≡◌, refl, true, false, none, some, [], ◌∷◌, arith, Bytes, codes, ◌==◌, if◌then◌else◌, ℕ, ◌≤◌,
  leb, length, ap, ◌∙◌, inl, inr, Bool-cases, Option,
}
use maketool.Estring.{init}
use maketool.Filter.Types.{
  undefined, plain, error, Filter, FilterResult, filter_result_init, Filters,
}
use maketool.Filter.Apply.{Regexec, Engine, filter_apply, first_byte, IsRegexec, Matches}
use maketool.Filter.Checks.{is_logged, orderly, in_bounds, no_nine, no_nine?, with_lead}
use maketool.Filter.Index.{Loaded, filter_load-Loaded}
use maketool.Filter.Tables.{filter_load}
use maketool.Filter.Machine.{Stepped, filter_apply-Stepped}

abbrev pub gcc_error : Filter
gcc_error = record {
  instate = [];
  outstate = [];
  regexp = codes "^([^:]+):([0-9]+): (.*)$";
  file_str = codes "\\1";
  line_str = codes "\\2";
  col_str = [];
  summary_str = some (codes "\\3");
  code = plain error;
  comment = codes "gcc errors";
  set_name = none;
}

abbrev pub gcc_only : Filters
gcc_only = record {
  filters = gcc_error ∷ [];
  by_lead = λ c. with_lead c (gcc_error ∷ []);
  filter_sets = [];
  curr_filter_set = none;
}

pub gcc_only-Loaded : Loaded gcc_only
unfolding orderly is_logged in_bounds no_nine no_nine?
gcc_only-Loaded = record { indexed = λ c. refl; all_orderly = refl; all_in_bounds = refl }

-- The subexpressions of "a.c:12: bad".
-- The offsets of the parts of "a.c:12: bad".
abbrev offsets : ℕ → Option (ℕ × ℕ)
offsets n =
    if n == 1
    then some (0, 3)
    else if n == 2
    then some (4, 6)
    else if n == 3
    then some (8, 11)
    else none

abbrev pub matched : Regexec
matched pattern line = if leb 11 (length line) then some offsets else none

offsets-range : (n so eo : ℕ) → offsets n ≡ some (so, eo) → (so ≤ eo) × (eo ≤ 11)
offsets-range n so eo h = ground arith

some-injective : (a b : Matches) → some a ≡ some b → a ≡ b
some-injective a b h = cc

pub matched-IsRegexec : IsRegexec matched
matched-IsRegexec pattern line m n so eo e f = elim (Bool-cases (leb 11 (length line))) [
  | inl y ↦
      let same : offsets ≡ m = some-injective offsets m (rw y at e) in
      let (a, b) = offsets-range n so eo (ap (λ k. k n) same ∙ f) in (a, ground arith)
  | inr n ↦ absurd (cc (rw n at e))
]

abbrev pub engine : Engine
engine = record { state = []; buf = init; ntries = 0; nmatches = 0 }

abbrev pub bad_line : Bytes
bad_line = codes "a.c:12: bad"

filter_load-Loaded_example :
    (fs : Filters) × (filter_load (λ r. true) (record { hpux = true; mipspro = true; mwos = false })
      ≡ some fs)
    × Loaded fs
filter_load-Loaded_example =
    filter_load-Loaded (λ r. true) (record { hpux = true; mipspro = true; mwos = false })

filter_apply-Stepped_example :
    (e' : Engine) × (res' : FilterResult) × (filter_apply matched gcc_only bad_line engine
        filter_result_init
      ≡ some (e', res'))
    × Stepped undefined [] e' res'
filter_apply-Stepped_example =
    filter_apply-Stepped matched gcc_only bad_line engine filter_result_init gcc_only-Loaded
      matched-IsRegexec (omega arith) (unfold first_byte in omega arith) (refl, refl)
