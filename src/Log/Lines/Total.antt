-- ===== src/Log/Lines/Total.antt =====
-- log.c: log_add_line and log_start_build as a whole.
use maketool.Common.{
  ℕ, ◌≤◌, ◌<◌, ◌≡◌, refl, sym, ap, ◌∙◌, ◌⊎◌, true, false, not, ◌||◌, Option, none, some, List, [],
  ◌∷◌, ◌++◌, map, if◌then◌else◌, Bytes, All, length, ltb, inl, inr, Bool-cases,
}
use mathlib.Core.Path.{subst}
use maketool.Filter.Types.{done, FilterResult, Filters}
use maketool.Filter.Apply.{Regexec, IsRegexec, first_byte}
use maketool.Filter.Checks.{is_logged}
use maketool.Filter.Index.{Loaded}
use maketool.Log.Records.{LogRec, LogFlags, Log, Node, switch_kind, log_add_rec}
use maketool.Log.Lines.{
  LogState, Surroundings, annotate_root, log_rootmost_node, log_update_build_start, add_and_show,
  follow_up, drain_rest, drain, drained_res, classify, take_line, finish_message, log_add_line,
}
use maketool.Log.Lines.Annotate.{ShortCounts, ShortLines, annotate_root_total}
use maketool.Log.Lines.Kept.{skeleton, log_show_rec-Kept}
use maketool.Log.Lines.Drain.{log_add_rec-Added}
use maketool.Log.Dirs.Context.{Coherent}
use maketool.Log.Lines.Stack.{HasRow, NodeOk}
use maketool.Log.Lines.Shown.{Stackable, IsRooted, log_show_rec_total}
use maketool.Log.Lines.Pending.{Queued, take_line-Taken, log_add_line-Queued}
use maketool.Log.Lines.Classify.{SaysWhich, classify_as_total}

rootmost-cases :
    (log : List LogRec) (ns : List Node)
    → All (NodeOk log) ns
    → (log_rootmost_node ns ≡ none) ⊎ ((n : Node) × (log_rootmost_node ns ≡ some n) × HasRow log n)
unfolding log_rootmost_node
rootmost-cases log [] h = inl refl
rootmost-cases log (n ∷ []) (h, hs) = inr (n, refl, h.1)
rootmost-cases log (n ∷ m ∷ ms) (h, hs) = rootmost-cases log (m ∷ ms) hs

-- What log_update_build_start needs in order to succeed: its nodes have rows, and its lines are
-- of at most 1023 bytes.
record Showable (st : Log) : Type 0 where
  rooted : IsRooted st
  lines : ShortLines (map skeleton st.log)

log_update_build_start_total :
    (env : Surroundings) (st : Log)
    → ShortCounts env
    → Showable st
    → (st' : Log) × (log_update_build_start env st ≡ some st') × Showable st'
unfolding log_update_build_start
log_update_build_start_total env st counts fine =
    elim (Bool-cases
      (not st.num_ew_changed || not (ltb 0 st.num_errors || ltb 0 st.num_warnings))) [
        | inl y ↦ (st, rw y refl, fine)
        | inr n ↦ elim (rootmost-cases st.log st.node_stack fine.rooted) [
          | inl e ↦ (st, rw (n, e) (unfold annotate_root in refl), fine)
          | inr (root, e, has) ↦
              let (st', p, log, stack) = annotate_root_total env st root counts fine.lines has in
              (
                st',
                rw (n, e) p,
                record { rooted = rw (log, stack) fine.rooted; lines = rw log fine.lines },
              )
        ]
      ]

append-ShortLines :
    (rs : List (Bytes × FilterResult)) (line : Bytes) (res : FilterResult)
    → ShortLines rs
    → length line ≤ 1023
    → ShortLines (rs ++ (line, res) ∷ [])
append-ShortLines [] line res h short = (short, tt)
append-ShortLines (r ∷ rs) line res (h, hs) short = (h, append-ShortLines rs line res hs short)

add_and_show_total :
    (env : Surroundings) (res : FilterResult) (con : Option (List ℕ)) (line : Bytes) (st : Log)
    → ShortCounts env
    → Showable st
    → length line ≤ 1023
    → Stackable env.flags res
    → (st' : Log) × (add_and_show env res con line st ≡ some st') × Showable st'
unfolding add_and_show
add_and_show_total env res con line st counts fine short can =
    let (shown, p, r) = log_show_rec_total env.flags line res con st fine.rooted can in
    let kept = log_show_rec-Kept env.flags (length st.log) (log_add_rec line res con st) shown p in
    let records : map skeleton shown.log ≡ map skeleton st.log ++ (line, res) ∷ [] =
      kept.records ∙ (log_add_rec-Added line res con st).records in
    let (st', q, fine') = log_update_build_start_total env shown counts (record {
      rooted = r;
      lines = rw records (append-ShortLines (map skeleton st.log) line res fine.lines short);
    }) in
    (st', rw p q, fine')

follow_up-Stackable : (flags : LogFlags) (res : FilterResult) → Stackable flags (follow_up res)
follow_up-Stackable flags res = ((λ h. absurd (cc)), (λ h. absurd (cc)))

drain_rest_total :
    (env : Surroundings) (res : FilterResult) (con : Option (List ℕ)) (lines : List Bytes)
    (st : Log)
    → ShortCounts env
    → Showable st
    → All (λ line. length line ≤ 1023) lines
    → (st' : Log) × (drain_rest env res con lines st ≡ some st') × Showable st'
unfolding drain_rest
drain_rest_total env res con [] st counts fine short = (st, refl, fine)
drain_rest_total env res con (line ∷ lines) st counts fine (h, hs) =
    let (mid, p, fine') =
      add_and_show_total env (follow_up res) con line st counts fine h
        (follow_up-Stackable env.flags res) in
    let (st', q, fine'') = drain_rest_total env res con lines mid counts fine' hs in
    (st', rw p q, fine'')

drain_total :
    (env : Surroundings) (res : FilterResult) (con : Option (List ℕ)) (lines : List Bytes)
    (st : Log)
    → ShortCounts env
    → Showable st
    → All (λ line. length line ≤ 1023) lines
    → Stackable env.flags res
    → (st' : Log) × (drain env res con lines st ≡ some st') × Showable st'
unfolding drain
drain_total env res con [] st counts fine short can = (st, refl, fine)
drain_total env res con (line ∷ lines) st counts fine (h, hs) can =
    let (mid, p, fine') = add_and_show_total env res con line st counts fine h can in
    let (st', q, fine'') = drain_rest_total env res con lines mid counts fine' hs in
    (st', rw p q, fine'')

-- Between two lines of a build: the filters and the log agree on whether a message is pending, with
-- no more pending lines than the rank of the filters' state (which a build that is cut off in the
-- middle of a message violates), the nodes have rows, all lines are of at most 1023 bytes, and the
-- directories are coherent.
pub record Ready (st : LogState) : Type 0 where
  pub queued : Queued st
  pub rooted : IsRooted st.log
  pub log_lines : ShortLines (map skeleton st.log.log)
  pub pending_lines : All (λ line. length line ≤ 1023) st.pending
  pub dirs : Coherent st.dirs

finish_message_total :
    (env : Surroundings) (st : LogState)
    → ShortCounts env
    → st.res.code.pending ≡ false
    → is_logged st.res.code.kind ≡ true
    → SaysWhich st.res
    → Showable st.log
    → All (λ line. length line ≤ 1023) st.pending
    → Coherent st.dirs
    → (st' : LogState) × (finish_message env st ≡ some st')
      × Showable st'.log
      × (st'.pending ≡ [])
      × Coherent st'.dirs
unfolding finish_message classify
finish_message_total env st counts ended logged which fine short coherent =
    let kind : switch_kind st.res.code ≡ st.res.code.kind =
      ap (λ b. if b then done else st.res.code.kind) ended in
    let ((res, con, dirs), p, can, coherent') =
      classify_as_total env st.res st.dirs coherent (switch_kind st.res.code) refl
        (subst (λ k. is_logged k ≡ true) (sym kind) logged) which in
    let (log, q, fine') = drain_total env res con st.pending st.log counts fine short can in
    (
      record st { res = drained_res res st.pending; pending = []; dirs = dirs; log = log },
      rw p (rw q refl),
      fine',
      refl,
      coherent',
    )

append-short :
    (lines : List Bytes) (line : Bytes)
    → All (λ l. length l ≤ 1023) lines
    → length line ≤ 1023
    → All (λ l. length l ≤ 1023) (lines ++ line ∷ [])
append-short [] line h short = (short, tt)
append-short (l ∷ lines) line (h, hs) short = (h, append-short lines line hs short)

-- With loaded filters, a regexec whose offsets lie in its line, translated counts within glib's
-- bound of at most 1023 bytes, and a state as it is between two lines of a build (which the next
-- line needs and this one leaves: the filters and the log agree on whether a message is pending,
-- with no more pending lines than the rank of the filters' state, so that no build before was cut
-- off inside a message; every node on the stack has a row; no line kept is longer than 1023 bytes;
-- the directories are coherent), log_add_line handles every line of at most 1023 bytes that is
-- empty or starts with an ASCII byte, with no failed assertion, null pointer or access out of
-- bounds, and leaves such a state, if a message that enters or leaves a directory names it when it
-- is complete.
pub log_add_line_total :
    (regexec : Regexec) (fs : Filters) (env : Surroundings) (line : Bytes) (st : LogState)
    → Loaded fs
    → IsRegexec regexec
    → ShortCounts env
    → length line ≤ 1023
    → first_byte line < 128
    → Ready st
    → ((taken : LogState) → take_line regexec fs line st ≡ some taken → SaysWhich taken.res)
    → (st' : LogState) × (log_add_line regexec fs env line st ≡ some st') × Ready st'
log_add_line_total regexec fs env line st loaded sane counts short ascii ready named =
    let (taken, p, t) = take_line-Taken regexec fs line st loaded sane short ascii ready.queued in
    let lines : All (λ l. length l ≤ 1023) taken.pending =
      rw t.stored (append-short st.pending line ready.pending_lines short) in
    let rooted : IsRooted taken.log = subst IsRooted (sym t.log_kept) ready.rooted in
    let log_lines : ShortLines (map skeleton taken.log.log) =
      subst (λ l. ShortLines (map skeleton l.log)) (sym t.log_kept) ready.log_lines in
    let coherent : Coherent taken.dirs = subst Coherent (sym t.dirs_kept) ready.dirs in
    elim (Bool-cases taken.res.code.pending) [
      | inl y ↦ (
        taken,
        unfold log_add_line in rw p (rw y refl),
        record {
          queued = t.stays y;
          rooted = rooted;
          log_lines = log_lines;
          pending_lines = lines;
          dirs = coherent;
        },
      )
      | inr n ↦
          let (st', e, fine, empty, coherent') =
            finish_message_total env taken counts n t.logged (named taken p)
              (record { rooted = rooted; lines = log_lines }) lines coherent in
          let whole : log_add_line regexec fs env line st ≡ some st' =
            unfold log_add_line in rw p (rw n e) in
          (
            st',
            whole,
            record {
              queued =
                  log_add_line-Queued regexec fs env line st st' loaded sane short ascii
                    ready.queued whole;
              rooted = fine.rooted;
              log_lines = fine.lines;
              pending_lines = rw empty tt;
              dirs = coherent';
            },
          )
    ]
