-- ===== src/Filter/Machine.antt =====
-- filter.c: what filter_apply does with the filters of filter_load, on lines of up to 1023 bytes.
use maketool.Common.{
  lt→ltb, ℕ, ◌+◌, ◌≤◌, ◌<◌, ◌≡◌, refl, ◌⊎◌, Bool, true, false, not, some, List, [], ◌∷◌, Bytes,
  str_eq, str_eq_iff, arith, all, inl, inr, Bool-cases, Option-cases, length,
}
use mathlib.Core.Path.{subst}
use maketool.Estring.Bounds.{IsValid}
use maketool.Filter.Types.{Kind, FilterCode, plain, undefined, FilterResult, Filter, Filters}
use maketool.Filter.Apply.{
  Regexec, IsRegexec, Engine, apply_code, apply_regexec, filter_apply_one, apply_loop, filter_apply,
  first_byte,
}
use maketool.Filter.Checks.{is_logged, rank, is_nil, orderly, in_bounds, with_lead}
use maketool.Filter.Index.{Loaded}
use maketool.Filter.Builds.{Matched, all-parts, apply_match-Matched}

-- The state of the filters agrees with the result: a state is named just while a message is
-- pending.
abbrev pub Synced : Engine → FilterResult → Type 0
Synced e res = res.code.pending ≡ not (is_nil e.state)

orderly-step :
    (f : Filter) (old : FilterCode)
    → orderly f ≡ true
    → ((apply_code f.code old).pending ≡ not (is_nil f.outstate))
      × ((apply_code f.code old).pending ≡ true → rank f.instate < rank f.outstate)
unfolding orderly apply_code
orderly-step f old h = (ground arith, λ p. ground arith)

logged-step :
    (f : Filter) (old : FilterCode)
    → orderly f ≡ true
    → is_logged old.kind ≡ true
    → is_logged (apply_code f.code old).kind ≡ true
unfolding orderly apply_code
logged-step f old h k = ground arith

-- What filter_apply does to a line in the state `st`, with a result of the kind `old`: a message
-- that stays pending goes on to a state of higher rank, and the kind is one that can be logged.
pub record Stepped (old : Kind) (st : Bytes) (e' : Engine) (res' : FilterResult) : Type 0 where
  pub buf_valid : IsValid e'.buf
  pub synced : Synced e' res'
  pub climbs : res'.code.pending ≡ true → rank st < rank e'.state
  pub logged : is_logged old ≡ true → is_logged res'.code.kind ≡ true

module _ (regexec : Regexec) (sane : IsRegexec regexec) (line : Bytes)
    (short : length line ≤ 1023) where
  Matched-Stepped :
      (f : Filter) (e e' : Engine) (res res' : FilterResult)
      → orderly f ≡ true
      → e.state ≡ f.instate
      → Matched f res e' res'
      → Stepped res.code.kind e.state e' res'
  Matched-Stepped f e e' res res' o same m =
      let (sync, climb) = orderly-step f res.code o in
      record {
        buf_valid = m.buf_valid;
        synced = rw (m.state_is, m.code_is) sync;
        climbs = λ p. rw (same, m.state_is) (climb (rw m.code_is at p));
        logged = λ k. rw m.code_is (logged-step f res.code o k);
      }

  -- One filter: no match, and nothing but a counter changes; or a match.
  apply_one-cases :
      (f : Filter) (e : Engine) (res : FilterResult)
      → orderly f ≡ true
      → in_bounds f ≡ true
      → IsValid e.buf
      → ((e' : Engine) × (filter_apply_one regexec f line e res ≡ some (false, e', res))
          × (e'.state ≡ e.state)
          × (e'.buf ≡ e.buf))
        ⊎ ((e' : Engine) × (res' : FilterResult) × (filter_apply_one regexec f line e res
              ≡ some (true, e', res'))
            × Stepped res.code.kind e.state e' res')
  unfolding filter_apply_one apply_regexec
  apply_one-cases f e res o b v = elim (Bool-cases (str_eq e.state f.instate)) [
    | inr n ↦ inl (e, rw n refl, refl, refl)
    | inl y ↦ elim (Option-cases (regexec f.regexp line)) [
      | inl none_ ↦ inl (record e { ntries = e.ntries + 1 }, rw (y, none_) refl, refl, refl)
      | inr (m, found) ↦
          let (e', res', p, q) =
            apply_match-Matched line short m (λ n so eo h. sane f.regexp line m n so eo found h) f
              (record e { ntries = e.ntries + 1 }) res b v in
          inr (
            e',
            res',
            rw (y, found) (rw p refl),
            Matched-Stepped f e e' res res' o ((str_eq_iff e.state f.instate).0 y) q,
          )
    ]
  ]

  apply_loop-Stepped :
      (fs : List Filter) (e : Engine) (res : FilterResult)
      → all orderly fs ≡ true
      → all in_bounds fs ≡ true
      → IsValid e.buf
      → (e' : Engine) × (res' : FilterResult) × (apply_loop regexec fs line e res ≡ some (e', res'))
        × Stepped res.code.kind e.state e' res'
  unfolding apply_loop
  apply_loop-Stepped [] e res o b v = (
    record e { state = [] },
    record res { code = plain undefined },
    refl,
    record {
      buf_valid = v;
      synced = refl;
      climbs = λ p. cc;
      logged = λ k. unfold is_logged in refl;
    },
  )
  apply_loop-Stepped (f ∷ fs) e res o b v =
      let (of, ofs) = all-parts orderly f fs o in
      let (bf, bfs) = all-parts in_bounds f fs b in
      elim (apply_one-cases f e res of bf v) [
        | inl (e1, p, same, buf) ↦
            let (e2, res2, q, st) = apply_loop-Stepped fs e1 res ofs bfs (rw buf v) in
            (e2, res2, rw p q, subst (λ st'. Stepped res.code.kind st' e2 res2) same st)
        | inr (e1, res1, p, st) ↦ (e1, res1, rw p refl, st)
      ]

with_lead-all :
    (p : Filter → Bool) (c : ℕ) (fs : List Filter) → all p fs ≡ true → all p (with_lead c fs) ≡ true
unfolding with_lead
with_lead-all p c [] h = refl
with_lead-all p c (f ∷ fs) h = ground (arith, with_lead-all p c fs)

-- On any loaded filters, if regexec gives offsets within its line, filter_apply handles every line of at most 1023
-- bytes that is empty or starts with an ASCII byte, with no access out of bounds. Afterwards the
-- state is named just while the message is pending, and then has a higher rank than before; and the
-- kind of the message is one that log_add_line can log, if it was before.
pub filter_apply-Stepped :
    (regexec : Regexec) (fs : Filters) (line : Bytes) (e : Engine) (res : FilterResult)
    → Loaded fs
    → IsRegexec regexec
    → length line ≤ 1023
    → first_byte line < 128
    → IsValid e.buf
    → (e' : Engine) × (res' : FilterResult) × (filter_apply regexec fs line e res ≡ some (e', res'))
      × Stepped res.code.kind e.state e' res'
unfolding filter_apply
filter_apply-Stepped regexec fs line e res loaded sane short ascii v =
    let c = first_byte line in
    let (e', res', p, st) =
      apply_loop-Stepped regexec sane line short (with_lead c fs.filters) e res
        (with_lead-all orderly c fs.filters loaded.all_orderly)
        (with_lead-all in_bounds c fs.filters loaded.all_in_bounds) v in
    (e', res', rw (lt→ltb c 128 ascii) (rw (loaded.indexed c) p), st)
