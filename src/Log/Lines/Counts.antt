-- ===== src/Log/Lines/Counts.antt =====
-- log.c: the lines of the log and of the pending message.
use maketool.Common.{
  ℕ, ◌≡◌, refl, sym, ap, ◌∙◌, false, Option, none, some, List, [], ◌∷◌, ◌++◌, map, append_assoc,
  append-nil, ◌>>=◌, Bytes, if◌then◌else◌, length, ltb, inl, inr, Bool-cases,
}
use maketool.Filter.Types.{plain, build_start, FilterResult, filter_result_init, Filters}
use maketool.Filter.Apply.{Regexec, filter_apply, filter_init}
use maketool.Log.Dirs.{log_clear_dirs}
use maketool.Log.Records.{LogRec, Log, log_add_rec, log_show_rec}
use maketool.Log.Lines.{
  LogState, Surroundings, classify, drain, drained_res, store_line, take_line, finish_message,
  log_add_line, log_start_build,
}
use maketool.Log.Lines.Kept.{skeleton, log_show_rec-Kept, bind_some, log-injective}
use maketool.Log.Lines.Drain.{log_add_rec-Added, message_records, drain-Added, rest_records}

abbrev pub line_of : LogRec → Bytes
line_of lr = lr.line

-- The lines that the log has been given: those of its records, as log_save writes them, and those
-- that are pending.
abbrev pub lines_of : LogState → List Bytes
lines_of st = map line_of st.log.log ++ st.pending

map-line : (log : List LogRec) → map line_of log ≡ map (λ p. p.0) (map skeleton log)
map-line [] = refl
map-line (r ∷ rs) = ap (◌∷◌ r.line) (map-line rs)

first-append :
    (xs ys : List (Bytes × FilterResult))
    → map (λ p. p.0) (xs ++ ys) ≡ map (λ p. p.0) xs ++ map (λ p. p.0) ys
first-append [] ys = refl
first-append (x ∷ xs) ys = ap (◌∷◌ x.0) (first-append xs ys)

first-rest :
    (res : FilterResult) (lines : List Bytes) → map (λ p. p.0) (rest_records res lines) ≡ lines
first-rest res [] = refl
first-rest res (l ∷ ls) = ap (◌∷◌ l) (first-rest res ls)

drain-lines :
    (env : Surroundings) (res : FilterResult) (con : Option (List ℕ)) (lines : List Bytes)
    (st st' : Log)
    → drain env res con lines st ≡ some st'
    → map line_of st'.log ≡ map line_of st.log ++ lines
unfolding drain
drain-lines env res con [] st st' h =
    ap (λ s. map line_of s.log) (sym (log-injective st st' h))
    ∙ sym (append-nil (map line_of st.log))
drain-lines env res con (line ∷ lines) st st' h =
    map-line st'.log
    ∙ ap (map (λ p. p.0)) (drain-Added env res con line lines st st' h).records
    ∙ first-append (map skeleton st.log) (message_records res (line ∷ lines))
    ∙ rw (map-line st.log, first-rest res lines) refl

state-injective : (a b : LogState) → some a ≡ some b → a ≡ b
state-injective a b h = cc

store_line-kept :
    (line : Bytes) (st st' : LogState)
    → store_line line st ≡ some st'
    → (st'.pending ≡ st.pending ++ line ∷ []) × (st'.log ≡ st.log)
unfolding store_line
store_line-kept line st st' h = elim (Bool-cases (ltb (length st.pending) 16)) [
  | inl y ↦
      let e = state-injective (record st { pending = st.pending ++ line ∷ [] }) st' (rw y at h) in
      (ap (λ s. s.pending) (sym e), ap (λ s. s.log) (sym e))
  | inr n ↦ absurd (cc (rw n at h))
]

pub take_line-kept :
    (regexec : Regexec) (fs : Filters) (line : Bytes) (st st' : LogState)
    → take_line regexec fs line st ≡ some st'
    → (st'.pending ≡ st.pending ++ line ∷ []) × (st'.log ≡ st.log)
unfolding take_line
take_line-kept regexec fs line st st' h =
    let ((e, res), p, q) =
      bind_some
        (filter_apply regexec fs line st.engine
          (if st.res.code.pending then st.res else filter_result_init))
        (λ (e, res). store_line line (record st { engine = e; res = res })) st' h in
    let (a, b) = store_line-kept line (record st { engine = e; res = res }) st' q in (a, b)

finish_message-lines :
    (env : Surroundings) (st st' : LogState)
    → finish_message env st ≡ some st'
    → lines_of st' ≡ lines_of st
unfolding finish_message
finish_message-lines env st st' h =
    let ((res, con, dirs), p, q) =
      bind_some (classify env st.res st.dirs)
        (λ (res, con, dirs). drain env res con st.pending st.log >>= λ log.
          some
            (record st { res = drained_res res st.pending; pending = []; dirs = dirs; log = log }))
        st' h in
    let (log, p2, q2) =
      bind_some (drain env res con st.pending st.log)
        (λ log.
          some
            (record st { res = drained_res res st.pending; pending = []; dirs = dirs; log = log }))
        st' q in
    ap lines_of (
      sym (
        state-injective
          (record st { res = drained_res res st.pending; pending = []; dirs = dirs; log = log }) st'
          q2))
    ∙ append-nil (map line_of log.log)
    ∙ drain-lines env res con st.pending st.log log p2

-- Whenever log_add_line returns, the lines of the log, with those that are pending behind them, are
-- those that were there before and the new one behind them: nothing is lost, merged or reordered.
pub log_add_line-lines :
    (regexec : Regexec) (fs : Filters) (env : Surroundings) (line : Bytes) (st st' : LogState)
    → log_add_line regexec fs env line st ≡ some st'
    → lines_of st' ≡ lines_of st ++ line ∷ []
unfolding log_add_line
log_add_line-lines regexec fs env line st st' h =
    let (taken, p, q) =
      bind_some (take_line regexec fs line st)
        (λ taken. if taken.res.code.pending then some taken else finish_message env taken) st' h in
    let (more, same) = take_line-kept regexec fs line st taken p in
    let stored : lines_of taken ≡ lines_of st ++ line ∷ [] =
      rw (more, same) (sym (append_assoc (map line_of st.log.log) st.pending (line ∷ []))) in
    elim (Bool-cases taken.res.code.pending) [
      | inl y ↦ ap lines_of (sym (state-injective taken st' (rw y at q))) ∙ stored
      | inr n ↦ finish_message-lines env taken st' (rw n at q) ∙ stored
    ]

-- log_start_build does not end a message that is still pending: when it returns, the record of the
-- new build stands in front of the lines that the build before left pending, the result of that
-- message is kept, and the filters are back in their first state.
pub log_start_build-lines :
    (env : Surroundings) (message : Bytes) (st st' : LogState)
    → log_start_build env message st ≡ some st'
    → (lines_of st' ≡ map line_of st.log.log ++ message ∷ st.pending)
      × (st'.res ≡ st.res)
      × (st'.engine.state ≡ [])
unfolding log_start_build filter_init
log_start_build-lines env message st st' h =
    let res : FilterResult = record filter_result_init { code = plain build_start } in
    let fresh : Log = record st.log { num_errors = 0; num_warnings = 0; num_ew_changed = false } in
    let added : Log = log_add_rec message res none fresh in
    let (log, p, q) =
      bind_some (log_show_rec env.flags (length fresh.log) added)
        (λ log.
          some (record st {
            dirs = log_clear_dirs st.dirs;
            engine = filter_init st.engine;
            log = log;
          }))
        st' h in
    let e =
      state-injective
        (record st { dirs = log_clear_dirs st.dirs; engine = filter_init st.engine; log = log }) st'
        q in
    let shown : map skeleton log.log ≡ map skeleton st.log.log ++ (message, res) ∷ [] =
      (log_show_rec-Kept env.flags (length fresh.log) added log p).records
      ∙ (log_add_rec-Added message res none fresh).records in
    (
      ap lines_of (sym e)
          ∙ ap (λ l. l ++ st.pending)
              (map-line log.log
                ∙ ap (map (λ p. p.0)) shown
                ∙ first-append (map skeleton st.log.log) ((message, res) ∷ [])
                ∙ ap (λ l. l ++ message ∷ []) (sym (map-line st.log.log)))
          ∙ append_assoc (map line_of st.log.log) (message ∷ []) st.pending,
      ap (λ s. s.res) (sym e),
      ap (λ s. s.engine.state) (sym e),
    )
