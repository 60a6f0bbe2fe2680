-- ===== src/Filter/Index.antt =====
-- filter.c: filter_load and `filters_by_lead`.
use maketool.Common.{
  ℕ, ◌≡◌, refl, append-nil, ◌∙◌, Bool, true, Option, none, some, List, [], ◌∷◌, ◌++◌, Bytes, arith,
  all, inl, inr, Bool-cases, Option-cases,
}
use maketool.Filter.Types.{Filter, FilterSpec, Filters}
use maketool.Filter.Leads.{filter_calc_leads}
use maketool.Filter.Load.{
  Directive, start_set, add, make_filter, add_leads, extended, filter_add, filter_set_start,
  has_set, run, no_filters,
}
use maketool.Filter.Tables.{Enabled, filter_calls, filter_load}
use maketool.Filter.Checks.{
  orderly, in_bounds, good_call, filter_calls_good, has_lead, with_lead, with_lead-append,
  all-append,
}

-- What filter_load leaves: the index of every byte lists, in the order of loading, just the
-- filters whose patterns have that lead, and all filters are orderly and in bounds.
pub record Loaded (fs : Filters) : Type 0 where
  pub indexed : (c : ℕ) → fs.by_lead c ≡ with_lead c fs.filters
  pub all_orderly : all orderly fs.filters ≡ true
  pub all_in_bounds : all in_bounds fs.filters ≡ true

good_call_parts :
    (spec : FilterSpec)
    → good_call (add spec) ≡ true
    → (orderly (make_filter none spec) ≡ true) × (in_bounds (make_filter none spec) ≡ true)
unfolding good_call
good_call_parts spec h = ground arith

good_call-cons :
    (d : Directive) (ds : List Directive)
    → all good_call (d ∷ ds) ≡ true
    → (good_call d ≡ true) × (all good_call ds ≡ true)
good_call-cons d ds h = ground arith

-- the current set does not matter
make_filter-orderly :
    (name : Option Bytes) (spec : FilterSpec)
    → (orderly (make_filter name spec) ≡ orderly (make_filter none spec))
      × (in_bounds (make_filter name spec) ≡ in_bounds (make_filter none spec))
unfolding orderly in_bounds make_filter
make_filter-orderly name spec = (refl, refl)

snoc-all :
    (p : Filter → Bool) (fs : List Filter) (f : Filter)
    → all p fs ≡ true
    → p f ≡ true
    → all p (fs ++ f ∷ []) ≡ true
snoc-all p fs f h k = all-append p fs (f ∷ []) h (rw k refl)

extended-indexed :
    (fs : Filters) (f : Filter) (leads : ℕ → Bool) (c : ℕ)
    → filter_calc_leads f.regexp ≡ some leads
    → fs.by_lead c ≡ with_lead c fs.filters
    → (extended fs f leads).by_lead c ≡ with_lead c (extended fs f leads).filters
unfolding extended add_leads with_lead has_lead
extended-indexed fs f leads c e h =
    ground
      (arith, with_lead-append c fs.filters (f ∷ []), append-nil (with_lead c fs.filters), e, h)

extended-Loaded :
    (fs : Filters) (spec : FilterSpec) (leads : ℕ → Bool)
    → filter_calc_leads spec.regexp ≡ some leads
    → good_call (add spec) ≡ true
    → Loaded fs
    → Loaded (extended fs (make_filter fs.curr_filter_set spec) leads)
unfolding extended make_filter
extended-Loaded fs spec leads e good v =
    let f = make_filter fs.curr_filter_set spec in
    let (keeps_order, keeps_bounds) = make_filter-orderly fs.curr_filter_set spec in
    let (order, bounds) = good_call_parts spec good in
    record {
      indexed =
          λ c. extended-indexed fs (make_filter fs.curr_filter_set spec) leads c e (v.indexed c);
      all_orderly = snoc-all orderly fs.filters f v.all_orderly (keeps_order ∙ order);
      all_in_bounds = snoc-all in_bounds fs.filters f v.all_in_bounds (keeps_bounds ∙ bounds);
    }

filter_add-Loaded :
    (regcomp : Bytes → Bool) (spec : FilterSpec) (fs : Filters)
    → good_call (add spec) ≡ true
    → Loaded fs
    → (fs' : Filters) × (filter_add regcomp spec fs ≡ some fs') × Loaded fs'
unfolding filter_add
filter_add-Loaded regcomp spec fs good v = elim (Bool-cases (regcomp spec.regexp)) [
  | inr n ↦ (fs, rw n refl, v)
  | inl y ↦ elim (Option-cases (filter_calc_leads spec.regexp)) [
    | inl e ↦ absurd (unfold good_call in cc (rw e at good))
    | inr (leads, e) ↦ (
      extended fs (make_filter fs.curr_filter_set spec) leads,
      rw (y, e) refl,
      extended-Loaded fs spec leads e good v,
    )
  ]
]

pub filter_set_start-Loaded :
    (name : Bytes) (fs : Filters) → Loaded fs → Loaded (filter_set_start name fs)
unfolding filter_set_start
filter_set_start-Loaded name fs v = elim (Bool-cases (has_set name fs.filter_sets)) [
  | inl y ↦
      rw y (record {
        indexed = v.indexed;
        all_orderly = v.all_orderly;
        all_in_bounds = v.all_in_bounds;
      })
  | inr n ↦
      rw n (record {
        indexed = v.indexed;
        all_orderly = v.all_orderly;
        all_in_bounds = v.all_in_bounds;
      })
]

run-Loaded :
    (regcomp : Bytes → Bool) (ds : List Directive) (fs : Filters)
    → all good_call ds ≡ true
    → Loaded fs
    → (fs' : Filters) × (run regcomp ds fs ≡ some fs') × Loaded fs'
unfolding run
run-Loaded regcomp [] fs good v = (fs, refl, v)
run-Loaded regcomp (start_set name ∷ ds) fs good v =
    run-Loaded regcomp ds (filter_set_start name fs) (good_call-cons _ ds good).1
      (filter_set_start-Loaded name fs v)
run-Loaded regcomp (add spec ∷ ds) fs good v =
    let (fs1, e1, v1) = filter_add-Loaded regcomp spec fs (good_call-cons _ ds good).0 v in
    let (fs2, e2, v2) = run-Loaded regcomp ds fs1 (good_call-cons _ ds good).1 v1 in
    (fs2, rw e1 e2, v2)

-- Whatever regcomp accepts and whatever is compiled in, filter_load succeeds: no assertion of
-- filter_calc_leads fails. Then every index `filters_by_lead[c]` lists, in the order of loading,
-- just the filters whose patterns have the lead `c`; and all filters are orderly and in bounds.
pub filter_load-Loaded :
    (regcomp : Bytes → Bool) (on : Enabled)
    → (fs : Filters) × (filter_load regcomp on ≡ some fs) × Loaded fs
unfolding filter_load
filter_load-Loaded regcomp on =
    run-Loaded regcomp (filter_calls on) no_filters (filter_calls_good on)
      (record { indexed = λ c. unfold with_lead in refl; all_orderly = refl; all_in_bounds = refl })
