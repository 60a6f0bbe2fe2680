-- ===== src/Log/Lines/Drain.antt =====
-- log.c: the loop of log_add_line over the pending lines.
use maketool.Common.{
  ℕ, ◌+◌, ◌≡◌, refl, sym, ap, ◌∙◌, true, Option, none, some, List, [], ◌∷◌, ◌++◌, map, append_assoc,
  append-nil, arith, Bytes,
}
use mathlib.Core.Path.{subst}
use maketool.Filter.Types.{warning, error, FilterResult}
use maketool.Log.Records.{LogRec, Log, switch_kind, log_add_rec}
use maketool.Log.Lines.{Surroundings, add_and_show, drain_rest, drain, follow_up}
use maketool.Log.Lines.Kept.{skeleton, bind_some, log-injective, add_and_show-Kept}

-- What a result adds to the counters.
abbrev pub error_count : FilterResult → ℕ
error_count res = elim (switch_kind res.code) [ error ↦ 1 | _ ↦ 0 ]

abbrev pub warning_count : FilterResult → ℕ
warning_count res = elim (switch_kind res.code) [ warning ↦ 1 | _ ↦ 0 ]

-- The log after `lines` were added to it: their texts and results, and the counters.
pub record Added (st st' : Log) (new : List (Bytes × FilterResult)) (errors warnings : ℕ)
    : Type 0 where
  pub records : map skeleton st'.log ≡ map skeleton st.log ++ new
  pub errors_are : st'.num_errors ≡ st.num_errors + errors
  pub warnings_are : st'.num_warnings ≡ st.num_warnings + warnings

map-append : (xs ys : List LogRec) → map skeleton (xs ++ ys) ≡ map skeleton xs ++ map skeleton ys
map-append [] ys = refl
map-append (x ∷ xs) ys = ap (◌∷◌ (skeleton x)) (map-append xs ys)

pub log_add_rec-Added :
    (line : Bytes) (res : FilterResult) (con : Option (List ℕ)) (st : Log)
    → Added st
        (log_add_rec line res con st)
        ((line, res) ∷ [])
        (error_count res)
        (warning_count res)
unfolding log_add_rec
log_add_rec-Added line res con st = record {
  records =
      map-append st.log
        (record { line = line; res = res; node = none; expanded = true; context = con } ∷ []);
  errors_are = ground arith;
  warnings_are = ground arith;
}

pub add_and_show-Added :
    (env : Surroundings) (res : FilterResult) (con : Option (List ℕ)) (line : Bytes) (st st' : Log)
    → add_and_show env res con line st ≡ some st'
    → Added st st' ((line, res) ∷ []) (error_count res) (warning_count res)
add_and_show-Added env res con line st st' h =
    let a = log_add_rec-Added line res con st in
    let k = add_and_show-Kept env res con line st st' h in
    record {
      records = k.records ∙ a.records;
      errors_are = k.errors ∙ a.errors_are;
      warnings_are = k.warnings ∙ a.warnings_are;
    }

Added-trans :
    (a b c : Log) (new new' : List (Bytes × FilterResult)) (e e' w w' : ℕ)
    → Added a b new e w
    → Added b c new' e' w'
    → Added a c (new ++ new') (e + e') (w + w')
Added-trans a b c new new' e e' w w' p q = record {
  records = q.records ∙ ap (λ l. l ++ new') p.records ∙ append_assoc (map skeleton a.log) new new';
  errors_are = omega (arith, p.errors_are, q.errors_are);
  warnings_are = omega (arith, p.warnings_are, q.warnings_are);
}

-- The records of a message: the first has its result, the others are informational, without a text
-- in summary mode.
abbrev pub rest_records : FilterResult → List Bytes → List (Bytes × FilterResult)
rest_records res lines = map (λ line. (line, follow_up res)) lines

abbrev pub message_records : FilterResult → List Bytes → List (Bytes × FilterResult)
message_records res [] = []
message_records res (line ∷ lines) = (line, res) ∷ rest_records res lines

drain_rest-Added :
    (env : Surroundings) (res : FilterResult) (con : Option (List ℕ)) (lines : List Bytes)
    (st st' : Log)
    → drain_rest env res con lines st ≡ some st'
    → Added st st' (rest_records res lines) 0 0
unfolding drain_rest
drain_rest-Added env res con [] st st' h =
    subst (λ s. Added st s [] 0 0) (log-injective st st' h)
      (record {
        records = sym (append-nil (map skeleton st.log));
        errors_are = omega arith;
        warnings_are = omega arith;
      })
drain_rest-Added env res con (line ∷ lines) st st' h =
    let (mid, p, q) =
      bind_some (add_and_show env (follow_up res) con line st) (λ s. drain_rest env res con lines s)
        st' h in
    Added-trans st mid st' ((line, follow_up res) ∷ []) (rest_records res lines) 0 0 0 0
      (add_and_show-Added env (follow_up res) con line st mid p)
      (drain_rest-Added env res con lines mid st' q)

-- When the loop over the pending lines returns, each line has become one record, in order; the
-- message counts as one error or one warning, or neither, however many lines it has.
pub drain-Added :
    (env : Surroundings) (res : FilterResult) (con : Option (List ℕ)) (line : Bytes)
    (lines : List Bytes) (st st' : Log)
    → drain env res con (line ∷ lines) st ≡ some st'
    → Added st st' (message_records res (line ∷ lines)) (error_count res) (warning_count res)
unfolding drain
drain-Added env res con line lines st st' h =
    let (mid, p, q) =
      bind_some (add_and_show env res con line st) (λ s. drain_rest env res con lines s) st' h in
    let t =
      Added-trans st mid st' ((line, res) ∷ []) (rest_records res lines) (error_count res) 0
        (warning_count res) 0 (add_and_show-Added env res con line st mid p)
        (drain_rest-Added env res con lines mid st' q) in
    record {
      records = t.records;
      errors_are = omega (arith, t.errors_are);
      warnings_are = omega (arith, t.warnings_are);
    }
