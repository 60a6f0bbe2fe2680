-- ===== src/Filter/Checks.antt =====
-- filter.c: checks on the filters of filter_load, made by evaluation.
use maketool.Common.{
  ℕ, ◌≡◌, refl, Bool, true, false, not, ◌&&◌, ◌||◌, Option, none, some, List, [], ◌∷◌, ◌++◌, ltb,
  ◌==◌, if◌then◌else◌, Bytes, codes, str_eq, arith, all,
}
use maketool.Filter.Types.{Kind, build_start, change_dir, is_undefined, Filter}
use maketool.Filter.Leads.{filter_calc_leads}
use maketool.Filter.Load.{Directive, start_set, add, make_filter}
use maketool.Filter.Tables.{Enabled, filter_calls}
use maketool.Filter.Tables.Common.{common_filters}
use maketool.Filter.Tables.Gcc.{gcc_filters}
use maketool.Filter.Tables.Parsers.{parser_generator_filters}
use maketool.Filter.Tables.Hpux.{hpux_filters}
use maketool.Filter.Tables.Mipspro.{mipspro_filters}
use maketool.Filter.Tables.MipsproNew.{mipspro_new_filters}
use maketool.Filter.Tables.Others.{other_filters}
use maketool.Filter.Tables.Mwos.{mwos_filters}

abbrev pub is_nil : Bytes → Bool
is_nil [] = true
is_nil (c ∷ s) = false

-- How far a state is into a message of several lines.
unfoldable pub rank : Bytes → ℕ
rank s =
    if str_eq s (codes "mipspro1") || str_eq s (codes "Nmipspro1")
    then 1
    else if str_eq s (codes "mipspro2") || str_eq s (codes "Nmipspro2")
    then 2
    else if str_eq s (codes "mipspro2a")
    then 3
    else if str_eq s (codes "mipspro3")
    then 4
    else if str_eq s (codes "mipspro4")
    then 5
    else if str_eq s (codes "mipspro5")
    then 6
    else 0

-- A kind that log_add_line can log: not FR_CHANGEDIR, on which it fails an assertion, and not
-- FR_BUILDSTART, which only log_start_build uses.
unfoldable pub is_logged : Kind → Bool
is_logged change_dir = false
is_logged build_start = false
is_logged _ = true

-- A filter that leaves the message pending goes on to a named state of higher rank; any other
-- goes back to the empty state, and says what the line is. Each kind can be logged.
unfoldable pub orderly : Filter → Bool
orderly f =
    is_logged f.code.kind
    && (if f.code.pending
        then not (is_nil f.outstate) && ltb (rank f.instate) (rank f.outstate)
        else is_nil f.outstate && not (is_undefined f.code.kind))

-- No template refers to the subexpression 9, which has no room in the array of matches.
unfoldable pub no_nine : Bytes → Bool
no_nine [] = true
no_nine (c ∷ []) = true
no_nine (c ∷ d ∷ s) = not (c == b'\\' && d == b'9') && no_nine (d ∷ s)

unfoldable pub no_nine? : Option Bytes → Bool
no_nine? none = true
no_nine? (some s) = no_nine s

unfoldable pub in_bounds : Filter → Bool
in_bounds f =
    no_nine f.file_str && no_nine f.line_str && no_nine f.col_str && no_nine? f.summary_str

unfoldable pub is_some {ℓ} : {A : Type ℓ} → Option A → Bool
is_some none = false
is_some (some a) = true

unfoldable pub good_call : Directive → Bool
unfolding orderly in_bounds is_some
good_call (start_set name) = true
good_call (add spec) =
    is_some (filter_calc_leads spec.regexp)
    && (orderly (make_filter none spec) && in_bounds (make_filter none spec))

common_good : all good_call common_filters ≡ true
unfolding good_call is_logged rank no_nine no_nine? filter_calc_leads make_filter str_eq
common_good = refl

gcc_good : all good_call gcc_filters ≡ true
unfolding good_call is_logged rank no_nine no_nine? filter_calc_leads make_filter str_eq
gcc_good = refl

parsers_good : all good_call parser_generator_filters ≡ true
unfolding good_call is_logged rank no_nine no_nine? filter_calc_leads make_filter str_eq
parsers_good = refl

hpux_good : all good_call hpux_filters ≡ true
unfolding good_call is_logged rank no_nine no_nine? filter_calc_leads make_filter str_eq
hpux_good = refl

mipspro_good : all good_call mipspro_filters ≡ true
unfolding good_call is_logged rank no_nine no_nine? filter_calc_leads make_filter str_eq
mipspro_good = refl

mipspro_new_good : all good_call mipspro_new_filters ≡ true
unfolding good_call is_logged rank no_nine no_nine? filter_calc_leads make_filter str_eq
mipspro_new_good = refl

others_good : all good_call other_filters ≡ true
unfolding good_call is_logged rank no_nine no_nine? filter_calc_leads make_filter str_eq
others_good = refl

mwos_good : all good_call mwos_filters ≡ true
unfolding good_call is_logged rank no_nine no_nine? filter_calc_leads make_filter str_eq
mwos_good = refl

pub all-append {ℓ} :
    {A : Type ℓ} (p : A → Bool) (xs ys : List A)
    → all p xs ≡ true
    → all p ys ≡ true
    → all p (xs ++ ys) ≡ true
all-append p [] ys h k = k
all-append p (x ∷ xs) ys h k = ground (arith, all-append p xs ys)

all-if :
    (b : Bool) (ds : List Directive)
    → all good_call ds ≡ true
    → all good_call (if b then ds else []) ≡ true
all-if true ds h = h
all-if false ds h = refl

-- Whatever is compiled in, every call of filter_load has a pattern that filter_calc_leads can
-- handle, an orderly filter, and templates in bounds.
pub filter_calls_good : (on : Enabled) → all good_call (filter_calls on) ≡ true
unfolding filter_calls
filter_calls_good on =
    search
      (
        all-append, all-if, common_good, gcc_good, parsers_good, hpux_good, mipspro_good,
        mipspro_new_good, others_good, mwos_good,
      )
      depth 14

-- Can a line that starts with `c` match the filter, by its leads?
unfoldable pub has_lead : ℕ → Filter → Bool
has_lead c f = elim (filter_calc_leads f.regexp) [ none ↦ false | some s ↦ s c ]

unfoldable pub with_lead : ℕ → List Filter → List Filter
with_lead c [] = []
with_lead c (f ∷ fs) = let rest = with_lead c fs in if has_lead c f then f ∷ rest else rest

pub with_lead-append :
    (c : ℕ) (fs gs : List Filter) → with_lead c (fs ++ gs) ≡ with_lead c fs ++ with_lead c gs
unfolding with_lead
with_lead-append c [] gs = refl
with_lead-append c (f ∷ fs) gs = ground (arith, with_lead-append c fs gs)
