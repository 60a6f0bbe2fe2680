-- ===== src/Log/Lines/Kept.antt =====
-- log.c: what log_show_rec and log_update_build_start keep of the records and the counters.
use maketool.Common.{
  ℕ, zero, suc, ◌≡◌, refl, sym, ap, ◌∙◌, false, ◌||◌, not, Option, none, some, List, [], ◌∷◌, map,
  ◌>>=◌, Bytes, length, get_elem?, set, ltb, inl, inr, Bool-cases, Option-cases,
}
use mathlib.Core.Path.{subst}
use maketool.Estring.{Estring, init, text, append_string}
use maketool.Filter.Types.{FilterResult}
use maketool.Log.Records.{
  LogRec, LogFlags, LogSeverity, Log, Node, log_add_rec, log_show_rec, show_under, show_row,
  severity_of, stacked, disappears, insert_row, log_current_unique_node,
}
use maketool.Log.Lines.{
  Surroundings, annotate_root, set_row_text, log_build_annotate, log_rootmost_node,
  log_update_build_start, add_and_show,
}

-- What a record keeps while it is shown.
abbrev pub skeleton : LogRec → Bytes × FilterResult
skeleton lr = (lr.line, lr.res)

pub record Kept (st st' : Log) : Type 0 where
  pub records : map skeleton st'.log ≡ map skeleton st.log
  pub errors : st'.num_errors ≡ st.num_errors
  pub warnings : st'.num_warnings ≡ st.num_warnings

Kept-trans : (a b c : Log) → Kept a b → Kept b c → Kept a c
Kept-trans a b c p q = record {
  records = q.records ∙ p.records;
  errors = q.errors ∙ p.errors;
  warnings = q.warnings ∙ p.warnings;
}

some-injective : (a b : LogRec) → some a ≡ some b → a ≡ b
some-injective a b h = cc

map-set :
    (log : List LogRec) (i : ℕ) (lr old : LogRec)
    → get_elem? log i ≡ some old
    → skeleton lr ≡ skeleton old
    → map skeleton (set log i lr) ≡ map skeleton log
map-set [] i lr old h e = refl
map-set (r ∷ rs) zero lr old h e =
    ap (λ k. k ∷ map skeleton rs) (e ∙ sym (ap skeleton (some-injective r old h)))
map-set (r ∷ rs) (suc i) lr old h e = ap (◌∷◌ (skeleton r)) (map-set rs i lr old h e)

module _ (flags : LogFlags) (place : ℕ) (lr old : LogRec) (parent : Option Node) where
  show_row-Kept :
      (sev : LogSeverity) (st : Log)
      → get_elem? st.log place ≡ some old
      → skeleton lr ≡ skeleton old
      → Kept st (show_row flags place lr parent sev st)
  unfolding show_row insert_row
  show_row-Kept sev st h e = elim (Bool-cases (disappears flags lr.res)) [
    | inl y ↦ rw y (record { records = refl; errors = refl; warnings = refl })
    | inr n ↦ rw n (record {
      records = map-set st.log place (record lr { node = some (length st.rows) }) old h e;
      errors = refl;
      warnings = refl;
    })
  ]

  show_under-Kept :
      (sev : Option LogSeverity) (st : Log)
      → get_elem? st.log place ≡ some old
      → skeleton lr ≡ skeleton old
      → Kept st (show_under flags place lr parent sev st)
  unfolding show_under
  show_under-Kept none st h e = record { records = refl; errors = refl; warnings = refl }
  show_under-Kept (some sev) st h e =
      let k =
        show_row-Kept sev
          (record st {
            node_stack = stacked flags (record { place = place; res = lr.res }) st.node_stack;
          })
          h e in
      record { records = k.records; errors = k.errors; warnings = k.warnings }

pub get_elem?-set :
    (log : List LogRec) (i : ℕ) (lr old : LogRec)
    → get_elem? log i ≡ some old
    → get_elem? (set log i lr) i ≡ some lr
get_elem?-set [] i lr old h = absurd (cc)
get_elem?-set (r ∷ rs) zero lr old h = refl
get_elem?-set (r ∷ rs) (suc i) lr old h = get_elem?-set rs i lr old h

pub log-injective : (a b : Log) → some a ≡ some b → a ≡ b
log-injective a b h = cc

pub log_show_rec-Kept :
    (flags : LogFlags) (place : ℕ) (st st' : Log)
    → log_show_rec flags place st ≡ some st'
    → Kept st st'
unfolding log_show_rec
log_show_rec-Kept flags place st st' h = elim (Option-cases (get_elem? st.log place)) [
  | inl e ↦ absurd (cc (rw e at h))
  | inr (lr, e) ↦ elim (Option-cases (log_current_unique_node st.node_stack)) [
    | inl e2 ↦ absurd (cc (rw (e, e2) at h))
    | inr (parent, e2) ↦
        let hidden : LogRec = record lr { node = none } in
        let st0 : Log = record st { log = set st.log place hidden } in
        let k =
          show_under-Kept flags place hidden hidden parent (severity_of flags lr.res) st0
            (get_elem?-set st.log place hidden lr e) refl in
        subst (λ s. Kept st s)
          (log-injective (show_under flags place hidden parent (severity_of flags lr.res) st0) st'
            (rw (e, e2) at h))
          (record {
            records = k.records ∙ map-set st.log place hidden lr e refl;
            errors = k.errors;
            warnings = k.warnings;
          })
  ]
]

pub bind_some {ℓ} :
    {A B : Type ℓ} (o : Option A) (f : A → Option B) (b : B)
    → (o >>= f) ≡ some b
    → (a : A) × (o ≡ some a) × (f a ≡ some b)
bind_some none f b h = absurd (cc)
bind_some (some a) f b h = (a, refl, h)

annotate_root-Kept :
    (env : Surroundings) (st st' : Log) (root : Option Node)
    → annotate_root env st root ≡ some st'
    → Kept st st'
unfolding annotate_root
annotate_root-Kept env st st' none h =
    subst (λ s. Kept st s) (log-injective st st' h)
      (record { records = refl; errors = refl; warnings = refl })
annotate_root-Kept env st st' (some root) h =
    let out : ℕ → Estring → Log =
      λ row e. record st { rows = set_row_text row (text e) st.rows; num_ew_changed = false } in
    let annotated : ℕ → Estring → Option Log = λ row start.
      log_build_annotate env st.num_errors st.num_warnings start >>= λ e. some (out row e) in
    let started : ℕ → LogRec → Option Log =
      λ row bs. append_string init (some bs.line) >>= λ start. annotated row start in
    let (bs, p, h1) =
      bind_some (get_elem? st.log root.place) (λ bs. bs.node >>= λ row. started row bs) st' h in
    let (row, p1, h2) = bind_some bs.node (λ row. started row bs) st' h1 in
    let (start, p2, h3) =
      bind_some (append_string init (some bs.line)) (λ start. annotated row start) st' h2 in
    let (e, p3, h4) =
      bind_some (log_build_annotate env st.num_errors st.num_warnings start) (λ e. some (out row e))
        st' h3 in
    subst (λ s. Kept st s) (log-injective (out row e) st' h4)
      (record { records = refl; errors = refl; warnings = refl })

log_update_build_start-Kept :
    (env : Surroundings) (st st' : Log) → log_update_build_start env st ≡ some st' → Kept st st'
unfolding log_update_build_start
log_update_build_start-Kept env st st' h =
    elim (Bool-cases
      (not st.num_ew_changed || not (ltb 0 st.num_errors || ltb 0 st.num_warnings))) [
        | inl y ↦
            subst (λ s. Kept st s) (log-injective st st' (rw y at h))
              (record { records = refl; errors = refl; warnings = refl })
        | inr n ↦ annotate_root-Kept env st st' (log_rootmost_node st.node_stack) (rw n at h)
      ]

pub add_and_show-Kept :
    (env : Surroundings) (res : FilterResult) (con : Option (List ℕ)) (line : Bytes) (st st' : Log)
    → add_and_show env res con line st ≡ some st'
    → Kept (log_add_rec line res con st) st'
unfolding add_and_show
add_and_show-Kept env res con line st st' h =
    let added : Log = log_add_rec line res con st in
    let (shown, p, q) =
      bind_some (log_show_rec env.flags (length st.log) added) (λ s. log_update_build_start env s)
        st' h in
    Kept-trans added shown st' (log_show_rec-Kept env.flags (length st.log) added shown p)
      (log_update_build_start-Kept env shown st' q)
