-- ===== src/Find/Order.antt =====
-- find.c: where do_find stops, against a description of the order in which it looks.
use maketool.Common.{
  ℕ, zero, suc, ◌+◌, ◌-◌, ◌≤◌, ◌≡◌, refl, sym, ap, ◌∙◌, Bool, true, false, not, ◌&&◌, Option, none,
  some, List, [], ◌∷◌, ◌++◌, get_elem?, get_elem?-lt, arith, if◌then◌else◌, Bytes, length, drop,
  length-drop, ltb, inl, inr, Bool-cases,
}
use maketool.Log.Records.{LogRec, LogFlags}
use maketool.Log.Apply.{
  LogApplyFunc, apply_forward, apply_backward, log_apply_after, log_set_selected,
}
use maketool.Find.{FindState, Find, matches, find_apply_func, search_log}

-- The places from `i` on, as many as the second number says.
abbrev pub upwards : ℕ → ℕ → List ℕ
upwards i zero = []
upwards i (suc n) = i ∷ upwards (i + 1) n

-- The places below `n`, the last one first.
abbrev pub downwards : ℕ → List ℕ
downwards zero = []
downwards (suc n) = n ∷ downwards n

-- The places that a search without wrapping looks at, in a log of `n` records.
abbrev pub one_way : Bool → Option ℕ → ℕ → List ℕ
one_way true none n = upwards 0 n
one_way true (some i) n = if ltb i n then upwards (i + 1) (n - (i + 1)) else upwards 0 n
one_way false none n = downwards n
one_way false (some i) n = if ltb i n then downwards i else downwards n

-- The places that do_find looks at.
abbrev pub search_order : Find → ℕ → List ℕ
search_order st n =
    one_way st.forward st.selected n ++ (if st.wrap then one_way st.forward none n else [])

abbrev pub first_hit : (ℕ → Bool) → List ℕ → Option ℕ
first_hit p [] = none
first_hit p (i ∷ is) = if p i then some i else first_hit p is

abbrev pub on_record : {A : Type 0} → A → (LogRec → A) → Option LogRec → A
on_record missing f none = missing
on_record missing f (some lr) = f lr

-- What a search leaves: `found`, and the selection.
abbrev pub outcome : List LogRec → Option ℕ → Option ℕ → Bool × Option ℕ
outcome log selected none = (false, selected)
outcome log selected (some i) =
    (true, on_record selected (λ lr. log_set_selected i lr selected) (get_elem? log i))

get_elem?-drop : (i k : ℕ) (log : List LogRec) → get_elem? (drop i log) k ≡ get_elem? log (i + k)
get_elem?-drop zero k log = ap (get_elem? log) (omega arith)
get_elem?-drop (suc i) k [] = refl
get_elem?-drop (suc i) k (r ∷ rs) =
    get_elem?-drop i k rs
    ∙ ap (get_elem? (r ∷ rs)) (let e : suc (i + k) ≡ suc i + k = omega arith in e)

abbrev or_hit : Option ℕ → Option ℕ → Option ℕ
or_hit none later = later
or_hit (some i) later = some i

first_hit-append :
    (p : ℕ → Bool) (xs ys : List ℕ)
    → first_hit p (xs ++ ys) ≡ or_hit (first_hit p xs) (first_hit p ys)
first_hit-append p [] ys = refl
first_hit-append p (x ∷ xs) ys = elim (Bool-cases (p x)) [
  | inl e ↦ rw e refl
  | inr e ↦ rw e (first_hit-append p xs ys)
]

set_hidden :
    (i : ℕ) (lr : LogRec) (selected : Option ℕ)
    → lr.node ≡ none
    → log_set_selected i lr selected ≡ selected
unfolding log_set_selected
set_hidden i lr selected hidden = rw hidden refl

module _ (regcomp : Bytes → Bool) (regexec : Bytes → Bytes → Bool) (flags : LogFlags)
    (state : FindState) (log : List LogRec) where
  abbrev pub hit : ℕ → Bool
  hit i = on_record false (matches regcomp regexec flags state) (get_elem? log i)

  abbrev func : LogApplyFunc (Bool × Option ℕ)
  func = find_apply_func regcomp regexec flags state

  hit_lem :
      (i : ℕ) (r : LogRec)
      → get_elem? log i ≡ some r
      → hit i ≡ matches regcomp regexec flags state r
  hit_lem i r here = ap (on_record false (matches regcomp regexec flags state)) here

  outcome_lem :
      (i : ℕ) (r : LogRec) (selected : Option ℕ)
      → get_elem? log i ≡ some r
      → outcome log selected (some i) ≡ (true, log_set_selected i r selected)
  outcome_lem i r selected here =
      ap (λ o. (true, on_record selected (λ lr. log_set_selected i lr selected) o)) here

  apply_forward-first_hit :
      (i : ℕ) (rs : List LogRec) (selected : Option ℕ)
      → ((k : ℕ) → get_elem? rs k ≡ get_elem? log (i + k))
      → apply_forward func i rs (false, selected)
        ≡ outcome log selected (first_hit hit (upwards i (length rs)))
  unfolding apply_forward find_apply_func
  apply_forward-first_hit i [] selected h = refl
  apply_forward-first_hit i (r ∷ rs) selected h =
      let here : get_elem? log i ≡ some r = ap (get_elem? log) (omega arith) ∙ sym (h 0) in
      let later = (λ (k : ℕ).
        h (suc k) ∙ ap (get_elem? log) (let e : i + suc k ≡ i + 1 + k = omega arith in e)) in
      elim (Bool-cases (matches regcomp regexec flags state r)) [
        | inl e ↦ rw e (
            sym (
              ap
                (λ b.
                  outcome log selected
                    (if b then some i else first_hit hit (upwards (i + 1) (length rs))))
                (hit_lem i r here ∙ e)
              ∙ outcome_lem i r selected here))
        | inr e ↦ rw e (
            apply_forward-first_hit (i + 1) rs selected later
            ∙ sym (
                ap
                  (λ b.
                    outcome log selected
                      (if b then some i else first_hit hit (upwards (i + 1) (length rs))))
                  (hit_lem i r here ∙ e)))
      ]

  apply_backward-first_hit :
      (n : ℕ) (selected : Option ℕ)
      → n ≤ length log
      → apply_backward func log n (false, selected)
        ≡ outcome log selected (first_hit hit (downwards n))
  unfolding apply_backward find_apply_func
  apply_backward-first_hit zero selected le = refl
  apply_backward-first_hit (suc n) selected le =
      let (r, here) = get_elem?-lt log n (omega arith) in
      elim (Bool-cases (matches regcomp regexec flags state r)) [
        | inl e ↦
            rw (here, apply_backward) (rw e refl)
            ∙ sym (
                ap (λ b. outcome log selected (if b then some n else first_hit hit (downwards n)))
                  (hit_lem n r here ∙ e)
                ∙ outcome_lem n r selected here)
        | inr e ↦
            rw (here, apply_backward) (rw e refl)
            ∙ apply_backward-first_hit n selected (omega arith)
            ∙ sym (
                ap (λ b. outcome log selected (if b then some n else first_hit hit (downwards n)))
                  (hit_lem n r here ∙ e))
      ]

  log_apply_after-first_hit :
      (forward : Bool) (start selected : Option ℕ)
      → log_apply_after func forward start log (false, selected)
        ≡ outcome log selected (first_hit hit (one_way forward start (length log)))
  unfolding log_apply_after
  log_apply_after-first_hit true none selected =
      apply_forward-first_hit 0 log selected (λ k. ap (get_elem? log) (omega arith))
  log_apply_after-first_hit true (some i) selected = elim (Bool-cases (ltb i (length log))) [
    | inl e ↦ rw e (
        apply_forward-first_hit (i + 1) (drop (i + 1) log) selected
          (λ k. get_elem?-drop (i + 1) k log)
        ∙ ap (λ n. outcome log selected (first_hit hit (upwards (i + 1) n)))
            (length-drop (i + 1) log))
    | inr e ↦ rw e (apply_forward-first_hit 0 log selected (λ k. ap (get_elem? log) (omega arith)))
  ]
  log_apply_after-first_hit false none selected =
      apply_backward-first_hit (length log) selected (omega arith)
  log_apply_after-first_hit false (some i) selected = elim (Bool-cases (ltb i (length log))) [
    | inl e ↦ rw e (apply_backward-first_hit i selected (ground arith))
    | inr e ↦ rw e (apply_backward-first_hit (length log) selected (omega arith))
  ]

  second_search :
      (forward wrap : Bool) (selected h : Option ℕ)
      → (if not (outcome log selected h).0 && wrap
          then log_apply_after func forward none log (outcome log selected h)
          else outcome log selected h)
        ≡ outcome log selected
            (or_hit h (first_hit hit (if wrap then one_way forward none (length log) else [])))
  second_search forward wrap selected (some i) = refl
  second_search forward true selected none = log_apply_after-first_hit forward none selected
  second_search forward false selected none = refl

  -- What the two searches of do_find leave is what the first record leaves that the string is found
  -- in, in the order of the search: behind the selected record in the chosen direction, and then, if
  -- the search wraps, from the other end. Where there is none, nothing is found or selected.
  pub search_log-first_hit :
      (st : Find)
      → search_log regcomp regexec flags state log st ≡ record st {
        found = (outcome log st.selected (first_hit hit (search_order st (length log)))).0;
        selected = (outcome log st.selected (first_hit hit (search_order st (length log)))).1;
      }
  unfolding search_log
  search_log-first_hit st =
      let once = one_way st.forward st.selected (length log) in
      let again : List ℕ = if st.wrap then one_way st.forward none (length log) else [] in
      rw (log_apply_after-first_hit st.forward st.selected st.selected) (
        ap (λ (r : Bool × Option ℕ). record st { found = r.0; selected = r.1 })
          (second_search st.forward st.wrap st.selected (first_hit hit once)
            ∙ ap (outcome log st.selected) (sym (first_hit-append hit once again))))

  -- A search that finds a record which is not shown selects nothing, so that the next search for the
  -- same string stops there again.
  pub search_log_hidden :
      (st : Find) (i : ℕ) (lr : LogRec)
      → first_hit hit (search_order st (length log)) ≡ some i
      → get_elem? log i ≡ some lr
      → lr.node ≡ none
      → search_log regcomp regexec flags state log st ≡ record st { found = true }
        × (search_log regcomp regexec flags state log (record st { found = true })
            ≡ record st { found = true })
  search_log_hidden st i lr h at hidden =
      let left : outcome log st.selected (first_hit hit (search_order st (length log)))
          ≡ (true, st.selected) =
        ap (outcome log st.selected) h
        ∙ outcome_lem i lr st.selected at
        ∙ ap (λ s. (true, s)) (set_hidden i lr st.selected hidden) in
      (
        search_log-first_hit st
            ∙ ap (λ (r : Bool × Option ℕ). record st { found = r.0; selected = r.1 }) left,
        search_log-first_hit (record st { found = true })
            ∙ ap (λ (r : Bool × Option ℕ). record st { found = r.0; selected = r.1 }) left,
      )
