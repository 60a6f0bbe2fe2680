-- ===== src/Task/Queue/Processes.antt =====
-- task.c and glib_extra.c: a process begins, and a process ends.
use maketool.Common.{
  ℕ, ◌≡◌, ◌≢◌, sym, ◌∙◌, Bool, Option, none, some, List, [], ◌∷◌, arith, ◌==◌, ==_iff, All, inl,
  inr, Bool-cases, Nat-cases,
}
use maketool.Task.Queue.{
  Task, Tasks, Event, update, put, g_hash_table_remove, g_hash_table_lookup, g_unix_add_reap_func,
}
use maketool.Task.Queue.Sound.{
  All-zip, All-imp, behind, Heap, Idle, Registered, Sound, update_self, update_other, Live-put,
  below_next,
}
use maketool.Task.Queue.Moves.{Absent}

-- The heap and the lists decide; callbacks and the working flag do not.
pub relabel :
    (ending : Option ℕ) (st : Tasks) (w : Bool) (es : List Event)
    → Sound ending st
    → Sound ending (record st { working = w; events = es })
relabel ending st w es s = record {
  unused = s.unused;
  queued = s.queued;
  once = s.once;
  idle = s.idle;
  registered = s.registered;
}

pub Registered-remove :
    (ending : Option ℕ) (heap : Heap) (p : ℕ) (table : List (ℕ × ℕ))
    → All (Registered ending heap) table
    → All (λ e. (p ≢ e.0) × Registered ending heap e) (g_hash_table_remove p table)
unfolding g_hash_table_remove
Registered-remove ending heap p [] h = tt
Registered-remove ending heap p ((q, i) ∷ table) (r, rs) = elim (Bool-cases (p == q)) [
  | inl e ↦ rw e (Registered-remove ending heap p table rs)
  | inr n ↦ rw n (((λ e. absurd (ground arith)), r), Registered-remove ending heap p table rs)
]

pub Registered-lookup :
    (heap : Heap) (p i : ℕ) (table : List (ℕ × ℕ))
    → All (Registered none heap) table
    → g_hash_table_lookup p table ≡ some i
    → (t : Task) × (heap i ≡ some t) × (t.pid ≡ some p)
unfolding g_hash_table_lookup
Registered-lookup heap p i [] h e = absurd (cc)
Registered-lookup heap p i ((q, j) ∷ table) (r, rs) e = elim (Bool-cases (p == q)) [
  | inl same ↦
      let (t, a, b) = r (λ f. absurd (cc)) in
      let found : some j ≡ some i = rw same at e in
      let key : p ≡ q = (==_iff p q).0 same in (t, cc, cc)
  | inr other ↦ Registered-lookup heap p i table rs (rw other at e)
]

-- A process has ended: its task has no pid any more.
pub quit-Sound :
    (st : Tasks) (i p : ℕ) (t t' : Task)
    → Sound none st
    → st.heap i ≡ some t
    → t.pid ≡ some p
    → t'.pid ≡ none
    → Sound (some p) (put i t' st)
quit-Sound st i p t t' s at runs ends = record {
  unused =
      λ j le. update_other st.heap i j (some t') (below_next none st s i t at j le) ∙ s.unused j le;
  queued = All-imp st.task_all (λ j. Live-put st.heap i j t') s.queued;
  once = s.once;
  idle = All-imp (behind st.task_all) still_idle s.idle;
  registered = All-imp st.piddata still_registered s.registered;
}
  where
    still_idle : (j : ℕ) → Idle st.heap j → Idle (update st.heap i (some t')) j
    still_idle j (u, e, n) = elim (Nat-cases i j) [
      | inl eq ↦ (t', rw (sym eq) (update_self st.heap i (some t')), ends)
      | inr other ↦ (u, update_other st.heap i j (some t') other ∙ e, n)
    ]

    still_registered :
        (e : ℕ × ℕ) → Registered none st.heap e → Registered (some p) (update st.heap i (some t')) e
    still_registered (q, j) r ne =
        let (u, e, n) = r (λ f. absurd (cc)) in
        (u, update_other st.heap i j (some t') (λ same. ne (cc)) ∙ e, n)

-- A process has begun: its task is not behind another in the queue.
pub add-Sound :
    (ending : Option ℕ) (st : Tasks) (i p : ℕ) (t t' : Task)
    → Sound ending st
    → st.heap i ≡ some t
    → t.pid ≡ none
    → Absent i (behind st.task_all)
    → t'.pid ≡ some p
    → Sound ending (g_unix_add_reap_func p i (put i t' st))
unfolding g_unix_add_reap_func
add-Sound ending st i p t t' s at idle absent runs = record {
  unused = λ j le.
      update_other st.heap i j (some t') (below_next ending st s i t at j le) ∙ s.unused j le;
  queued = All-imp st.task_all (λ j. Live-put st.heap i j t') s.queued;
  once = s.once;
  idle =
      All-zip (behind st.task_all)
        (λ j n (u, e, q). (u, update_other st.heap i j (some t') n ∙ e, q)) absent s.idle;
  registered = (
    (λ ne. (t', update_self st.heap i (some t'), runs)),
    All-imp (g_hash_table_remove p st.piddata) still_registered
        (Registered-remove ending st.heap p st.piddata s.registered),
  );
}
  where
    still_registered :
        (e : ℕ × ℕ)
        → (p ≢ e.0) × Registered ending st.heap e
        → Registered ending (update st.heap i (some t')) e
    still_registered (q, j) (n, r) ne =
        let (u, e, m) = r ne in (u, update_other st.heap i j (some t') (λ same. absurd (cc)) ∙ e, m)
