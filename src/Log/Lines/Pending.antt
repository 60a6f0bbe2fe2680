-- ===== src/Log/Lines/Pending.antt =====
-- log.c: the array of pending lines.
use maketool.Common.{
  ◌+◌, ◌≤◌, ◌<◌, ◌≡◌, refl, sym, ◌∙◌, Bool, true, false, some, List, [], ◌∷◌, ◌++◌, arith, ◌>>=◌,
  Bytes, if◌then◌else◌, length, length-append, lt→ltb, inl, inr, Bool-cases,
}
use mathlib.Core.Path.{subst}
use maketool.Estring.Bounds.{IsValid}
use maketool.Filter.Types.{FilterResult, filter_result_init, Filters}
use maketool.Filter.Apply.{Regexec, IsRegexec, first_byte}
use maketool.Filter.Checks.{is_logged, rank}
use maketool.Filter.Index.{Loaded}
use maketool.Filter.Machine.{Synced, filter_apply-Stepped}
use maketool.Log.Dirs.{Dirs}
use maketool.Log.Lines.{
  LogState, Surroundings, Classified, classify, classify_as, in_context, drain, drained_res,
  store_line, take_line, finish_message, log_add_line,
}
use maketool.Log.Lines.Kept.{bind_some}

-- Between lines: the states of the filters and of the log agree on whether a message is pending,
-- and there are no more pending lines than the rank of the filters' state; the kind of the last result
-- is one that can be logged.
pub record Queued (st : LogState) : Type 0 where
  pub buf_valid : IsValid st.engine.buf
  pub synced : Synced st.engine st.res
  pub few : length st.pending ≤ rank st.engine.state
  pub loggable : is_logged st.res.code.kind ≡ true

rank_le : (s : Bytes) → rank s ≤ 6
unfolding rank
rank_le s = ground arith

store_line_room :
    (line : Bytes) (st : LogState)
    → length st.pending < 16
    → store_line line st ≡ some (record st { pending = st.pending ++ line ∷ [] })
unfolding store_line
store_line_room line st h = rw (lt→ltb (length st.pending) 16 h) refl

-- A state that log_add_line has stored its line in.
pub record Taken (line : Bytes) (st taken : LogState) : Type 0 where
  pub stored : taken.pending ≡ st.pending ++ line ∷ []
  pub log_kept : taken.log ≡ st.log
  pub dirs_kept : taken.dirs ≡ st.dirs
  pub within : length taken.pending ≤ 7
  pub buf_ok : IsValid taken.engine.buf
  pub logged : is_logged taken.res.code.kind ≡ true
  pub agreed : Synced taken.engine taken.res
  pub stays : taken.res.code.pending ≡ true → Queued taken

old_kind :
    (b : Bool) (res : FilterResult)
    → is_logged res.code.kind ≡ true
    → is_logged (if b then res else filter_result_init).code.kind ≡ true
unfolding is_logged
old_kind true res h = h
old_kind false res h = refl

-- On loaded filters, with a regexec whose offsets lie in its line, from a state where the filters
-- and the log agree on whether a message is pending and where no more lines are pending than the rank
-- of the filters' state (as between two lines of a build, where no build before was cut off inside a
-- message), the part of log_add_line that filters a line and stores it succeeds for every line of at
-- most 1023 bytes that is empty or starts with an ASCII byte: its assertion holds, at most 7 of the
-- 16 places are used, the log and the directories are as before, and if the message stays pending
-- then the state is again one from which this holds.
pub take_line-Taken :
    (regexec : Regexec) (fs : Filters) (line : Bytes) (st : LogState)
    → Loaded fs
    → IsRegexec regexec
    → length line ≤ 1023
    → first_byte line < 128
    → Queued st
    → (taken : LogState) × (take_line regexec fs line st ≡ some taken) × Taken line st taken
unfolding take_line
take_line-Taken regexec fs line st loaded sane short ascii q =
    let old : FilterResult = if st.res.code.pending then st.res else filter_result_init in
    let (e, res, p, s) =
      filter_apply-Stepped regexec fs line st.engine old loaded sane short ascii q.buf_valid in
    let kind : is_logged old.code.kind ≡ true = old_kind st.res.code.pending st.res q.loggable in
    let size : length (st.pending ++ line ∷ []) ≡ length st.pending + 1 =
      length-append st.pending (line ∷ []) in
    (
      record st { engine = e; res = res; pending = st.pending ++ line ∷ [] },
      rw p (
          store_line_room line (record st { engine = e; res = res })
            (omega (arith, q.few, rank_le st.engine.state))),
      record {
        stored = refl;
        log_kept = refl;
        dirs_kept = refl;
        within = omega (arith, q.few, rank_le st.engine.state, size);
        buf_ok = s.buf_valid;
        logged = s.logged kind;
        agreed = s.synced;
        stays = λ pending. record {
          buf_valid = s.buf_valid;
          synced = s.synced;
          few = omega (arith, size, q.few, s.climbs pending);
          loggable = s.logged kind;
        };
      },
    )

state-injective : (a b : LogState) → some a ≡ some b → a ≡ b
state-injective a b h = cc

classify-plain :
    (env : Surroundings) (res : FilterResult) (dirs : Dirs) (out : Classified)
    → res.code.pending ≡ false
    → classify env res dirs ≡ some out
    → out.0.code.pending ≡ false
unfolding classify classify_as in_context
classify-plain env res dirs out plain h = ground arith

classify-logged :
    (env : Surroundings) (res : FilterResult) (dirs : Dirs) (out : Classified)
    → is_logged res.code.kind ≡ true
    → classify env res dirs ≡ some out
    → is_logged out.0.code.kind ≡ true
unfolding classify classify_as in_context is_logged
classify-logged env res dirs out k h = ground arith

drained_res-logged :
    (res : FilterResult) (lines : List Bytes)
    → is_logged res.code.kind ≡ true
    → is_logged (drained_res res lines).code.kind ≡ true
unfolding drained_res is_logged
drained_res-logged res [] h = h
drained_res-logged res (l ∷ []) h = h
drained_res-logged res (l ∷ m ∷ ms) h = refl

drained_res-plain :
    (res : FilterResult) (lines : List Bytes)
    → res.code.pending ≡ false
    → (drained_res res lines).code.pending ≡ false
unfolding drained_res
drained_res-plain res [] h = h
drained_res-plain res (l ∷ []) h = h
drained_res-plain res (l ∷ m ∷ ms) h = refl

finish_message-Queued :
    (env : Surroundings) (st st' : LogState)
    → st.res.code.pending ≡ false
    → IsValid st.engine.buf
    → Synced st.engine st.res
    → is_logged st.res.code.kind ≡ true
    → finish_message env st ≡ some st'
    → Queued st'
unfolding finish_message
finish_message-Queued env st st' plain valid sync kind h =
    let ((res, con, dirs), p, q) =
      bind_some (classify env st.res st.dirs)
        (λ (res, con, dirs). drain env res con st.pending st.log >>= λ log.
          some
            (record st { res = drained_res res st.pending; pending = []; dirs = dirs; log = log }))
        st' h in
    let (log, p2, q2) =
      bind_some (drain env res con st.pending st.log)
        (λ log.
          some
            (record st { res = drained_res res st.pending; pending = []; dirs = dirs; log = log }))
        st' q in
    subst Queued
      (state-injective
        (record st { res = drained_res res st.pending; pending = []; dirs = dirs; log = log }) st'
        q2)
      (record {
        buf_valid = valid;
        synced =
            drained_res-plain res st.pending
              (classify-plain env st.res st.dirs (res, con, dirs) plain p)
            ∙ sym plain
            ∙ sync;
        few = omega arith;
        loggable =
            drained_res-logged res st.pending
              (classify-logged env st.res st.dirs (res, con, dirs) kind p);
      })

-- Whenever log_add_line returns on such a line, from such a state and loaded filters, the state it
-- leaves is such a state again.
pub log_add_line-Queued :
    (regexec : Regexec) (fs : Filters) (env : Surroundings) (line : Bytes) (st st' : LogState)
    → Loaded fs
    → IsRegexec regexec
    → length line ≤ 1023
    → first_byte line < 128
    → Queued st
    → log_add_line regexec fs env line st ≡ some st'
    → Queued st'
unfolding log_add_line
log_add_line-Queued regexec fs env line st st' loaded sane short ascii q h =
    let (taken, p, t) = take_line-Taken regexec fs line st loaded sane short ascii q in
    let after : (if taken.res.code.pending then some taken else finish_message env taken)
        ≡ some st' =
      rw p at h in
    elim (Bool-cases taken.res.code.pending) [
      | inl y ↦ subst Queued (state-injective taken st' (rw y at after)) (t.stays y)
      | inr n ↦ finish_message-Queued env taken st' n t.buf_ok t.agreed t.logged (rw n at after)
    ]
