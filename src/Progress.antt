-- ===== src/Progress.antt =====
-- progress.c: the percentage that a long operation reports. `unsigned long` has `word` values; the
-- callbacks are the list of percentages reported.
pub mod Reports
use maketool.Common.{
  ℕ, ◌+◌, ◌*◌, ◌/◌, ◌%◌, Bool, true, false, Option, none, some, List, [], ◌∷◌, ◌++◌, ltb, ◌==◌,
  if◌then◌else◌,
}

pub record Progress : Type 0 where
  pub p_where : ℕ
  pub p_length : ℕ
  -- `none` is the initial -1
  pub p_lastpc : Option ℕ

-- progress_start; the flag says that `po_start` is called
pub progress_start : ℕ → Progress × Bool
progress_start l =
    (record { p_where = 0; p_length = l; p_lastpc = none }, if l == 0 then false else true)

pub same_pc : Option ℕ → ℕ → Bool
same_pc none pc = false
same_pc (some last) pc = last == pc

pub report : Progress → ℕ → Progress × List ℕ
report p pc = if same_pc p.p_lastpc pc then (p, []) else (record p { p_lastpc = some pc }, pc ∷ [])

-- progress_update
pub progress_update : ℕ → Progress → ℕ → Progress × List ℕ
progress_update word p pos =
    let q = record p { p_where = pos } in
    if ltb 10000000 p.p_length
    then report q (100 * (pos / p.p_length))
    else if ltb 0 p.p_length
    then report q (((100 * pos) % word) / p.p_length)
    else (q, [])

-- progress_delta, for an increment that is not negative
pub progress_delta : ℕ → Progress → ℕ → Progress × List ℕ
progress_delta word p delta = progress_update word p ((p.p_where + delta) % word)

-- progress_end: whether `po_end` is called
pub progress_end : Progress → Bool
progress_end p = if p.p_length == 0 then false else true

-- A run of progress_delta calls, and all that is reported.
pub deltas : ℕ → Progress → List ℕ → Progress × List ℕ
deltas word p [] = (p, [])
deltas word p (d ∷ ds) =
    let (q, r) = progress_delta word p d in let (q', rs) = deltas word q ds in (q', r ++ rs)
