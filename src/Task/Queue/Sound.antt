-- ===== src/Task/Queue/Sound.antt =====
-- task.c: no action on the queue touches a task that is freed, and task_start ends.
use maketool.Common.{
  ℕ, ◌≤◌, ◌≡◌, ◌≢◌, refl, sym, ◌∙◌, Option, none, some, List, [], ◌∷◌, ◌++◌, arith, ◌==◌, ==_iff,
  All, inl, inr, Bool-cases, Nat-cases,
}
use maketool.Task.Queue.{Task, Tasks, update, put, remove}

pub All-zip {ℓ} :
    {A : Type ℓ} {P Q R : A → Type 0} (xs : List A)
    → ((x : A) → P x → Q x → R x)
    → All P xs
    → All Q xs
    → All R xs
All-zip [] f p q = tt
All-zip (x ∷ xs) f (p, ps) (q, qs) = (f x p q, All-zip xs f ps qs)

pub All-imp {ℓ} :
    {A : Type ℓ} {P R : A → Type 0} (xs : List A) → ((x : A) → P x → R x) → All P xs → All R xs
All-imp [] f p = tt
All-imp (x ∷ xs) f (p, ps) = (f x p, All-imp xs f ps)

pub All-snoc {ℓ} :
    {A : Type ℓ} (P : A → Type 0) (xs : List A) (x : A) → All P xs → P x → All P (xs ++ x ∷ [])
All-snoc P [] x p h = (h, tt)
All-snoc P (y ∷ ys) x (p, ps) h = (p, All-snoc P ys x ps h)

-- No task is in the queue twice.
abbrev pub Once : List ℕ → Type 0
Once [] = Unit
Once (i ∷ is) = All (λ j. i ≢ j) is × Once is

abbrev pub behind : List ℕ → List ℕ
behind [] = []
behind (i ∷ is) = is

pub All-remove : (P : ℕ → Type 0) (i : ℕ) (xs : List ℕ) → All P xs → All P (remove i xs)
unfolding remove
All-remove P i [] h = tt
All-remove P i (x ∷ xs) (p, ps) = elim (Bool-cases (i == x)) [
  | inl e ↦ rw e ps
  | inr n ↦ rw n (p, All-remove P i xs ps)
]

pub Once-remove : (i : ℕ) (xs : List ℕ) → Once xs → Once (remove i xs)
unfolding remove
Once-remove i [] h = tt
Once-remove i (x ∷ xs) (p, ps) = elim (Bool-cases (i == x)) [
  | inl e ↦ rw e ps
  | inr n ↦ rw n (All-remove (λ j. x ≢ j) i xs p, Once-remove i xs ps)
]

pub absent-remove : (i : ℕ) (xs : List ℕ) → Once xs → All (λ j. i ≢ j) (remove i xs)
unfolding remove
absent-remove i [] h = tt
absent-remove i (x ∷ xs) (p, ps) = elim (Bool-cases (i == x)) [
  | inl e ↦ rw (e, (==_iff i x).0 e) p
  | inr n ↦ rw n ((λ q. absurd (ground arith)), absent-remove i xs ps)
]

pub behind-remove :
    (P : ℕ → Type 0) (i : ℕ) (xs : List ℕ) → All P (behind xs) → All P (behind (remove i xs))
unfolding remove
behind-remove P i [] h = tt
behind-remove P i (x ∷ []) h = elim (Bool-cases (i == x)) [ inl e ↦ rw e tt | inr n ↦ rw n tt ]
behind-remove P i (x ∷ y ∷ ys) h = elim (Bool-cases (i == x)) [
  | inl e ↦ rw e h.1
  | inr n ↦ rw n (All-remove P i (y ∷ ys) h)
]

abbrev pub Heap : Type 0
Heap = ℕ → Option Task

abbrev pub Live : Heap → ℕ → Type 0
Live heap i = (t : Task) × (heap i ≡ some t)

-- A task that does not run.
abbrev pub Idle : Heap → ℕ → Type 0
Idle heap i = (t : Task) × (heap i ≡ some t) × (t.pid ≡ none)

-- An entry of the table whose process has not ended leads to its task.
abbrev pub Registered : Option ℕ → Heap → ℕ × ℕ → Type 0
Registered ending heap (p, i) =
    (some p ≢ ending) → (t : Task) × (heap i ≡ some t) × (t.pid ≡ some p)

-- What holds between two actions. `ending` is the pid of a process whose end is being handled.
pub record Sound (ending : Option ℕ) (st : Tasks) : Type 0 where
  pub unused : (i : ℕ) → st.next ≤ i → st.heap i ≡ none
  pub queued : All (Live st.heap) st.task_all
  pub once : Once st.task_all
  pub idle : All (Idle st.heap) (behind st.task_all)
  pub registered : All (Registered ending st.heap) st.piddata

pub update_self : (heap : Heap) (i : ℕ) (t : Option Task) → update heap i t i ≡ t
update_self heap i t = rw ((==_iff i i).1 refl) refl

pub update_other : (heap : Heap) (i j : ℕ) (t : Option Task) → i ≢ j → update heap i t j ≡ heap j
update_other heap i j t n = ground arith

pub Live-put : (heap : Heap) (i j : ℕ) (t : Task) → Live heap j → Live (update heap i (some t)) j
Live-put heap i j t (u, e) = elim (Nat-cases i j) [
  | inl same ↦ (t, rw (sym same) (update_self heap i (some t)))
  | inr other ↦ (u, update_other heap i j (some t) other ∙ e)
]

module _ (ending : Option ℕ) (st : Tasks) (sound : Sound ending st) (i : ℕ) (t : Task)
    (at : st.heap i ≡ some t) where
  pub below_next : (j : ℕ) → st.next ≤ j → i ≢ j
  below_next j le e = let gap : st.heap j ≡ none = sound.unused j le in cc

  -- A change of a task that leaves its pid keeps what holds.
  pub put-Sound : (t' : Task) → t'.pid ≡ t.pid → Sound ending (put i t' st)
  put-Sound t' same = record {
    unused = λ j le. update_other st.heap i j (some t') (below_next j le) ∙ sound.unused j le;
    queued = All-imp st.task_all (λ j. Live-put st.heap i j t') sound.queued;
    once = sound.once;
    idle = All-imp (behind st.task_all) still_idle sound.idle;
    registered = All-imp st.piddata still_registered sound.registered;
  }
    where
      still_idle : (j : ℕ) → Idle st.heap j → Idle (update st.heap i (some t')) j
      still_idle j (u, e, n) = elim (Nat-cases i j) [
        | inl eq ↦ (t', rw (sym eq) (update_self st.heap i (some t')), cc)
        | inr other ↦ (u, update_other st.heap i j (some t') other ∙ e, n)
      ]

      still_registered :
          (e : ℕ × ℕ)
          → Registered ending st.heap e
          → Registered ending (update st.heap i (some t')) e
      still_registered (p, j) r ne =
          let (u, e, n) = r ne in
          elim (Nat-cases i j) [
            | inl eq ↦ (t', rw (sym eq) (update_self st.heap i (some t')), cc)
            | inr other ↦ (u, update_other st.heap i j (some t') other ∙ e, n)
          ]
