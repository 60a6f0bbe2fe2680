-- ===== src/Filter/Load.antt =====
-- filter_add, filter_set_start and the run of filter_load, of filter.c. `regcomp` is a parameter:
-- whether it accepts a pattern.
use maketool.Common.{
  ℕ, Bool, true, false, Option, none, some, List, [], ◌∷◌, ◌++◌, ◌==◌, if◌then◌else◌, ◌>>=◌, Bytes,
  String, codes, str_eq,
}
use maketool.Filter.Types.{Filter, FilterSpec, FilterSet, Filters, FilterCode}
use maketool.Filter.Leads.{filter_calc_leads, Suitable}

-- The static variables at program start.
abbrev pub no_filters : Filters
no_filters = record { filters = []; by_lead = λ c. []; filter_sets = []; curr_filter_set = none }

-- `strchr(f->instate, ':')`: the state string is cut at the first colon.
unfoldable pub before_colon : Bytes → Bytes
before_colon [] = []
before_colon (c ∷ s) = let rest = before_colon s in if c == b':' then [] else c ∷ rest

unfoldable pub after_colon : Bytes → Bytes
after_colon [] = []
after_colon (c ∷ s) = let rest = after_colon s in if c == b':' then s else rest

unfoldable pub make_filter : Option Bytes → FilterSpec → Filter
unfolding before_colon after_colon
make_filter set_name spec = record {
  instate = before_colon spec.state;
  outstate = after_colon spec.state;
  regexp = spec.regexp;
  file_str = spec.file_str;
  line_str = spec.line_str;
  col_str = spec.col_str;
  summary_str = spec.summary_str;
  code = spec.code;
  comment = spec.comment;
  set_name = set_name;
}

-- `f->set->filters = g_list_append(...)`, where the current set is known by its name
unfoldable pub add_to_set : Option Bytes → Filter → List FilterSet → List FilterSet
add_to_set none f sets = sets
add_to_set (some name) f [] = []
add_to_set (some name) f (s ∷ sets) =
    let rest = add_to_set (some name) f sets in
    if str_eq s.name name then record s { filters = s.filters ++ f ∷ [] } ∷ sets else s ∷ rest

-- the loop over the 256 bytes
unfoldable pub add_leads : Suitable → Filter → (ℕ → List Filter) → ℕ → List Filter
add_leads leads f by_lead c = if leads c then by_lead c ++ f ∷ [] else by_lead c

-- the lists that the new filter is appended to
unfoldable pub extended : Filters → Filter → Suitable → Filters
unfolding add_to_set
extended fs f leads = record {
  filters = fs.filters ++ f ∷ [];
  by_lead = add_leads leads f fs.by_lead;
  filter_sets = add_to_set fs.curr_filter_set f fs.filter_sets;
  curr_filter_set = fs.curr_filter_set;
}

-- filter_add; `none` is a failed assertion of filter_calc_leads
unfoldable pub filter_add : (Bytes → Bool) → FilterSpec → Filters → Option Filters
filter_add regcomp spec fs =
    if regcomp spec.regexp
    then (filter_calc_leads spec.regexp >>= λ leads.
        some (extended fs (make_filter fs.curr_filter_set spec) leads))
    else some fs

unfoldable pub has_set : Bytes → List FilterSet → Bool
has_set name [] = false
has_set name (s ∷ sets) = if str_eq name s.name then true else has_set name sets

-- filter_set_start
unfoldable pub filter_set_start : Bytes → Filters → Filters
filter_set_start name fs =
    if has_set name fs.filter_sets then record fs { curr_filter_set = some name } else record fs {
      filter_sets = fs.filter_sets ++ record { name = name; filters = [] } ∷ [];
      curr_filter_set = some name;
    }

-- One call in the body of filter_load.
pub data Directive : Type 0 where
  start_set : Bytes → Directive
  add : FilterSpec → Directive

-- A call of filter_add with literal arguments.
abbrev pub spec :
    String → String → FilterCode → String → String → String → Option String → String → FilterSpec
spec state regexp code file_str line_str col_str summary_str comment = record {
  state = codes state;
  regexp = codes regexp;
  code = code;
  file_str = codes file_str;
  line_str = codes line_str;
  col_str = codes col_str;
  summary_str = elim summary_str [ none ↦ none | some s ↦ some (codes s) ];
  comment = codes comment;
}

unfoldable pub run : (Bytes → Bool) → List Directive → Filters → Option Filters
run regcomp [] fs = some fs
run regcomp (start_set name ∷ ds) fs = run regcomp ds (filter_set_start name fs)
run regcomp (add spec ∷ ds) fs = filter_add regcomp spec fs >>= λ fs'. run regcomp ds fs'
