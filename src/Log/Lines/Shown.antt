-- ===== src/Log/Lines/Shown.antt =====
-- log.c: log_show_rec on a new record.
use maketool.Common.{
  ℕ, zero, suc, ◌≡◌, ◌≢◌, refl, sym, ◌∙◌, ◌⊎◌, true, false, Option, none, some, List, [], ◌∷◌, ◌++◌,
  arith, Bytes, All, length, get_elem?, set, inl, inr, Bool-cases,
}
use mathlib.Core.Path.{subst}
use maketool.Filter.Types.{FilterResult}
use maketool.Log.Records.{
  LogRec, LogFlags, LogSeverity, Log, Node, switch_kind, stacked, disappears, insert_row,
  severity_of, show_row, show_under, log_add_rec, log_show_rec,
}
use maketool.Log.Lines.Kept.{get_elem?-set}
use maketool.Log.Lines.Stack.{
  get_elem?-set_ne, Named, HasRow, NodeOk, All-map, log_current_unique_node_total, pushes,
  stack_for-All,
}

-- A result that may put its record on the stack: the record is shown, and has a name if it is one
-- for a directory.
abbrev pub Stackable : LogFlags → FilterResult → Type 0
Stackable flags res =
    (pushes (switch_kind res.code) ≡ true → disappears flags res ≡ false)
    × Named (record { place = 0; res = res })

set-HasRow :
    (log : List LogRec) (p : ℕ) (lr : LogRec) (n : Node)
    → p ≢ n.place
    → HasRow log n
    → HasRow (set log p lr) n
set-HasRow log p lr n ne (r, row, found, node) =
    (r, row, get_elem?-set_ne log p n.place lr ne ∙ found, node)

module _ (flags : LogFlags) (p : ℕ) (lr : LogRec) (parent : Option Node) where
  -- A node of the stack while the record at `p` is being shown: an old one, or that of the record.
  abbrev Candidate : Log → Node → Type 0
  Candidate st n =
      (NodeOk st.log n × (p ≢ n.place))
      ⊎ (Named n × (n.place ≡ p) × (disappears flags lr.res ≡ false))

  kept-Candidate :
      (st : Log) → disappears flags lr.res ≡ true → (n : Node) → Candidate st n → NodeOk st.log n
  kept-Candidate st y n (inl (ok, ne)) = ok
  kept-Candidate st y n (inr (named, at, shown)) = absurd (cc)

  row-Candidate :
      (st : Log) (row : ℕ) (old : LogRec)
      → get_elem? st.log p ≡ some old
      → (n : Node) → Candidate st n
      → NodeOk (set st.log p (record lr { node = some row })) n
  row-Candidate st row old h n (inl ((named, has), ne)) =
      (named, set-HasRow st.log p (record lr { node = some row }) n ne has)
  row-Candidate st row old h n (inr (named, at, shown)) =
      let new : LogRec = record lr { node = some row } in
      (
        named,
        (
          new,
          row,
          subst (λ i. get_elem? (set st.log p new) i ≡ some new) (sym at)
              (get_elem?-set st.log p new old h),
          refl,
        ),
      )

  show_row-Ok :
      (sev : LogSeverity) (st : Log) (old : LogRec)
      → get_elem? st.log p ≡ some old
      → All (Candidate st) st.node_stack
      → All
          (NodeOk (show_row flags p lr parent sev st).log)
          (show_row flags p lr parent sev st).node_stack
  unfolding show_row insert_row
  show_row-Ok sev st old h all = elim (Bool-cases (disappears flags lr.res)) [
    | inl y ↦ rw y (All-map (Candidate st) (NodeOk st.log) st.node_stack (kept-Candidate st y) all)
    | inr n ↦ rw n (
        All-map (Candidate st) (NodeOk (set st.log p (record lr { node = some (length st.rows) })))
          st.node_stack (row-Candidate st (length st.rows) old h) all)
  ]

  show_under-Ok :
      (sev : Option LogSeverity) (st : Log) (old : LogRec)
      → get_elem? st.log p ≡ some old
      → All (λ n. NodeOk st.log n × (p ≢ n.place)) st.node_stack
      → Stackable flags lr.res
      → All
          (NodeOk (show_under flags p lr parent sev st).log)
          (show_under flags p lr parent sev st).node_stack
  unfolding show_under stacked
  show_under-Ok none st old h all fine =
      All-map (λ n. NodeOk st.log n × (p ≢ n.place)) (NodeOk st.log) st.node_stack (λ n k. k.0) all
  show_under-Ok (some sev) st old h all (shown, named) =
      let n : Node = record { place = p; res = lr.res } in
      let pushed : Log = record st { node_stack = stacked flags n st.node_stack } in
      show_row-Ok sev pushed old h (
        stack_for-All (Candidate pushed) flags n (switch_kind lr.res.code) st.node_stack
          (All-map (λ m. NodeOk st.log m × (p ≢ m.place)) (Candidate pushed) st.node_stack
            (λ m k. inl k) all)
          (λ push. inr (named, refl, shown push)))

-- Every node on the stack has a row, and a name if it is one for a directory.
abbrev pub IsRooted : Log → Type 0
IsRooted st = All (NodeOk st.log) st.node_stack

get_elem?-append :
    (xs ys : List LogRec) (i : ℕ) (lr : LogRec)
    → get_elem? xs i ≡ some lr
    → get_elem? (xs ++ ys) i ≡ some lr
get_elem?-append [] ys i lr h = absurd (cc)
get_elem?-append (x ∷ xs) ys zero lr h = h
get_elem?-append (x ∷ xs) ys (suc i) lr h = get_elem?-append xs ys i lr h

get_elem?-length :
    (xs : List LogRec) (lr : LogRec) → get_elem? (xs ++ lr ∷ []) (length xs) ≡ some lr
get_elem?-length [] lr = refl
get_elem?-length (x ∷ xs) lr = get_elem?-length xs lr

get_elem?-length_ne :
    (xs : List LogRec) (i : ℕ) (lr : LogRec) → get_elem? xs i ≡ some lr → length xs ≢ i
get_elem?-length_ne [] i lr h e = absurd (cc)
get_elem?-length_ne (x ∷ xs) zero lr h e = omega (arith, e)
get_elem?-length_ne (x ∷ xs) (suc i) lr h e = get_elem?-length_ne xs i lr h (omega (arith, e))

added_node :
    (log : List LogRec) (lr : LogRec) (n : Node)
    → NodeOk log n
    → NodeOk (log ++ lr ∷ []) n × (length log ≢ n.place)
added_node log lr n (named, (r, row, found, node)) = (
  (named, (r, row, get_elem?-append log (lr ∷ []) n.place r found, node)),
  get_elem?-length_ne log n.place r found,
)

-- Adding a record and showing it.
pub log_show_rec_total :
    (flags : LogFlags) (line : Bytes) (res : FilterResult) (con : Option (List ℕ)) (st : Log)
    → IsRooted st
    → Stackable flags res
    → (st' : Log) × (log_show_rec flags (length st.log) (log_add_rec line res con st) ≡ some st')
      × IsRooted st'
unfolding log_show_rec log_add_rec
log_show_rec_total flags line res con st rooted fine =
    let lr : LogRec = record {
      line = line;
      res = res;
      node = none;
      expanded = true;
      context = con;
    } in
    let added : Log = log_add_rec line res con st in
    let p : ℕ = length st.log in
    let (parent, q) =
      log_current_unique_node_total st.node_stack
        (All-map (NodeOk st.log) Named st.node_stack (λ n k. k.0) rooted) in
    let st0 : Log = record added { log = set added.log p lr } in
    (
      show_under flags p lr parent (severity_of flags res) st0,
      rw (get_elem?-length st.log lr, q) refl,
      show_under-Ok flags p lr parent (severity_of flags res) st0 lr
          (get_elem?-set added.log p lr lr (get_elem?-length st.log lr))
          (All-map (NodeOk st.log) (λ n. NodeOk st0.log n × (p ≢ n.place)) st.node_stack
            (λ n k.
              let ((named, has), ne) = added_node st.log lr n k in
              ((named, set-HasRow added.log p lr n ne has), ne))
            rooted)
          fine,
    )
