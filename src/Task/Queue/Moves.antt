-- ===== src/Task/Queue/Moves.antt =====
-- task.c: each operation on the queue keeps what holds of it.
use maketool.Common.{
  ℕ, ◌+◌, ◌-◌, ◌≡◌, ◌≢◌, refl, sym, ◌∙◌, true, false, Option, none, some, List, [], ◌∷◌, ◌++◌,
  arith, ◌==◌, All, inl, inr, Bool-cases,
}
use maketool.Task.Queue.{
  Task, Tasks, update, put, task_enqueue, task_destroy, task_unref, remove, task_dequeue,
}
use maketool.Task.Queue.Sound.{
  All-zip, All-imp, All-snoc, Once, behind, All-remove, Once-remove, behind-remove, Live, Idle,
  Sound, update_self, update_other, Live-put, below_next, put-Sound,
}

-- A task that is on no list.
abbrev pub Absent : ℕ → List ℕ → Type 0
Absent i is = All (λ j. i ≢ j) is

pub Absent-behind : (i : ℕ) (is : List ℕ) → Absent i is → Absent i (behind is)
Absent-behind i [] a = tt
Absent-behind i (j ∷ js) (n, a) = a

Once-snoc : (is : List ℕ) (i : ℕ) → Once is → Absent i is → Once (is ++ i ∷ [])
Once-snoc [] i o a = (tt, tt)
Once-snoc (j ∷ js) i (n, o) (m, a) =
    (All-snoc (λ k. j ≢ k) js i n (λ e. m (sym e)), Once-snoc js i o a)

behind-snoc :
    (P : ℕ → Type 0) (is : List ℕ) (i : ℕ) → All P (behind is) → P i → All P (behind (is ++ i ∷ []))
behind-snoc P [] i h p = tt
behind-snoc P (j ∷ js) i h p = All-snoc P js i h p

module _ (ending : Option ℕ) (st : Tasks) (sound : Sound ending st) where
  -- task_create
  module _ (t : Task) where
    apart : (j : ℕ) → Live st.heap j → st.next ≢ j
    apart j (u, e) same =
        let gap : st.heap st.next ≡ none = sound.unused st.next (omega arith) in cc

    pub new-Sound : Sound ending (record (put st.next t st) { next = st.next + 1 })
    new-Sound = record {
      unused = λ j le.
          update_other st.heap st.next j (some t) (omega arith) ∙ sound.unused j (omega arith);
      queued = All-imp st.task_all (λ j. Live-put st.heap st.next j t) sound.queued;
      once = sound.once;
      idle =
          All-imp (behind st.task_all)
            (λ j (u, e, n). (u, update_other st.heap st.next j (some t) (apart j (u, e)) ∙ e, n))
            sound.idle;
      registered =
          All-imp st.piddata
            (λ (p, j) r ne.
              let (u, e, n) = r ne in
              (u, update_other st.heap st.next j (some t) (apart j (u, e)) ∙ e, n))
            sound.registered;
    }

    pub new-Absent : Absent st.next st.task_all
    new-Absent = All-imp st.task_all apart sound.queued

  -- task_enqueue, of a task that does not run
  pub task_enqueue-Sound :
      (i : ℕ) (t : Task)
      → st.heap i ≡ some t
      → t.pid ≡ none
      → Absent i st.task_all
      → (st' : Tasks) × (task_enqueue i st ≡ some st')
        × Sound ending st'
        × (st'.task_all ≡ st.task_all ++ i ∷ [])
        × ((j : ℕ) → i ≢ j → st'.heap j ≡ st.heap j)
  unfolding task_enqueue
  task_enqueue-Sound i t at stopped absent =
      let t' : Task = record t { enqueued = true } in
      let kept = put-Sound ending st sound i t at t' refl in
      (
        record (put i t' st) { task_all = st.task_all ++ i ∷ [] },
        rw at refl,
        record {
          unused = kept.unused;
          queued =
              All-snoc (Live (update st.heap i (some t'))) st.task_all i kept.queued
                (t', update_self st.heap i (some t'));
          once = Once-snoc st.task_all i sound.once absent;
          idle =
              behind-snoc (Idle (update st.heap i (some t'))) st.task_all i kept.idle
                (t', update_self st.heap i (some t'), stopped);
          registered = kept.registered;
        },
        refl,
        λ j n. update_other st.heap i j (some t') n,
      )

  -- task_dequeue
  pub task_dequeue-Sound :
      (i : ℕ) (t : Task)
      → st.heap i ≡ some t
      → (st' : Tasks) × (task_dequeue i st ≡ some (t.enqueued, st'))
        × Sound ending st'
        × (st'.heap i ≡ some (record t { enqueued = false }))
        × (st'.task_all ≡ remove i st.task_all)
  unfolding task_dequeue
  task_dequeue-Sound i t at =
      let t' : Task = record t { enqueued = false } in
      let kept = put-Sound ending st sound i t at t' refl in
      (
        record (put i t' st) { task_all = remove i st.task_all },
        rw at refl,
        record {
          unused = kept.unused;
          queued = All-remove (Live (update st.heap i (some t'))) i st.task_all kept.queued;
          once = Once-remove i st.task_all sound.once;
          idle = behind-remove (Idle (update st.heap i (some t'))) i st.task_all kept.idle;
          registered = kept.registered;
        },
        update_self st.heap i (some t'),
        refl,
      )

  module _ (i : ℕ) (t : Task) (at : st.heap i ≡ some t) (stopped : t.pid ≡ none)
      (absent : Absent i st.task_all) where
    -- task_destroy
    pub destroy-Sound : Sound ending (task_destroy i st)
    unfolding task_destroy
    destroy-Sound = record {
      unused = λ j le.
          update_other st.heap i j none (below_next ending st sound i t at j le)
          ∙ sound.unused j le;
      queued =
          All-zip st.task_all (λ j n (u, e). (u, update_other st.heap i j none n ∙ e)) absent
            sound.queued;
      once = sound.once;
      idle =
          All-zip (behind st.task_all)
            (λ j n (u, e, q). (u, update_other st.heap i j none n ∙ e, q))
            (Absent-behind i st.task_all absent) sound.idle;
      registered =
          All-imp st.piddata
            (λ (p, j) r ne.
              let (u, e, q) = r ne in
              (u, update_other st.heap i j none (λ same. absurd (cc)) ∙ e, q))
            sound.registered;
    }

    -- task_unref, of a task that is over
    pub task_unref-Sound :
        (st' : Tasks) × (task_unref i st ≡ some st')
        × Sound ending st'
        × (st'.task_all ≡ st.task_all)
    unfolding task_unref
    task_unref-Sound = elim (Bool-cases (t.refcount == 1)) [
      | inl last ↦
          (task_destroy i st, rw at (rw last refl), destroy-Sound, unfold task_destroy in refl)
      | inr more ↦ (
        put i (record t { refcount = t.refcount - 1 }) st,
        rw at (rw more refl),
        put-Sound ending st sound i t at (record t { refcount = t.refcount - 1 }) refl,
        refl,
      )
    ]
