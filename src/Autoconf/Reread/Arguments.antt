-- ===== src/Autoconf/Reread/Arguments.antt =====
-- autoconf.c: what parse_config_status_line does with all the arguments of a command.
use maketool.Common.{
  ℕ, zero, suc, ◌<◌, ◌≡◌, refl, sym, ap, ◌∙◌, true, false, Option, some, List, [], ◌∷◌, ◌++◌, arith,
  length, All, All-append, map, Bytes, str_eq, append_assoc, inl, inr, Bool-cases,
}
use mathlib.Core.Path.{fun_ext, subst}
use maketool.Estring.{text_of, is_space}
use maketool.Autoconf.Options.{AcOption, set_option, append_options}
use maketool.Autoconf.Status.{take_run, Status, look_up, parse_argument, parse_arguments}
use maketool.Autoconf.Status.Words.{value_text, Valid, parse_argument-word}
use maketool.Autoconf.Reread.{
  unset, given, IsPlain, Absent, Distinct, printed, printed-space, printed-unset, printed-set,
  round_of, set_option-found, look_up-set, argument-text, plain-NoSpace,
}

module _ (upper_bound : Bytes → ℕ) where
  -- What is to be shown of the rest of the arguments, where `front` are the options that have had their turn.
  abbrev pub Rereads : List AcOption → List AcOption → ℕ → Status → Type 0
  Rereads front todo fuel st =
      (st' : Status) × (out : List AcOption) × (parse_arguments fuel (printed todo) st ≡ some st')
      × (st'.options ≡ front ++ out)
      × (append_options upper_bound out ≡ append_options upper_bound todo)

  unset_step :
      (o : AcOption) (todo front : List AcOption) (fuel : ℕ) (st : Status)
      → o.flags.opt_present ≡ false
      → Rereads (front ++ unset o ∷ []) todo fuel st
      → Rereads front (o ∷ todo) fuel st
  unfolding append_options printed
  unset_step o todo front fuel st n (st', out, p, q, r) = (
    st',
    unset o ∷ out,
    rw n p,
    q ∙ append_assoc front (unset o ∷ []) out,
    fun_ext (λ e. rw n (ap (λ f. f e) r)),
  )

  -- An option that is present, with what parse_arguments has stored in its value.
  abbrev stored : AcOption → Option Bytes → AcOption
  stored o val = record (unset o) {
    value = val;
    flags = record (unset o).flags { opt_present = true };
  }

  stores :
      (o : AcOption) (todo front : List AcOption) (st : Status)
      → st.options ≡ front ++ map unset (o ∷ todo)
      → Absent o.name front
      → (val : Option Bytes)
      → look_up st.options (some o.name) val ≡ some (front ++ stored o val ∷ map unset todo)
  stores o todo front st opts fro val =
      look_up-set o.name val st.options (front ++ stored o val ∷ map unset todo) (
        ap (set_option o.name val) opts
        ∙ set_option-found o.name val front (map unset todo) (unset o) fro refl)

  set_step :
      (o : AcOption) (val : Option Bytes) (todo front : List AcOption) (fuel : ℕ) (st st1 : Status)
      → o.flags.opt_present ≡ true
      → text_of val ≡ text_of (given o)
      → parse_argument false (o.name ++ (value_text (given o) ++ printed todo)) st
        ≡ some (printed todo, st1)
      → Rereads (front ++ stored o val ∷ []) todo fuel st1
      → Rereads front (o ∷ todo) (suc fuel) st
  unfolding append_options printed
  set_step o val todo front fuel st st1 y same here (st', out, p, q, r) = (
    st',
    stored o val ∷ out,
    rw y (round_of fuel (o.name ++ (value_text (given o) ++ printed todo)) st ∙ rw here p),
    q ∙ append_assoc front (stored o val ∷ []) out,
    fun_ext (λ e. rw y (rw (argument-text o.argtype o.value val same) (rw r refl))),
  )

  Absent-snoc :
      (todo front : List AcOption) (o o' : AcOption)
      → o'.name ≡ o.name
      → All (λ p. str_eq o.name p.name ≡ false) todo
      → All (λ p. Absent p.name front) todo
      → All (λ p. Absent p.name (front ++ o' ∷ [])) todo
  Absent-snoc [] front o o' same h fr = h
  Absent-snoc (p ∷ todo) front o o' same (h, hs) (f, fs) = (
    All-append (λ q. str_eq q.name p.name ≡ false) front (o' ∷ []) f (rw same h, tt),
    Absent-snoc todo front o o' same hs fs,
  )

  pub args-Rereads :
      (todo front : List AcOption) (fuel : ℕ) (st : Status)
      → length (printed todo) < suc fuel
      → Valid st
      → st.options ≡ front ++ map unset todo
      → All IsPlain todo
      → Distinct todo
      → All (λ o. Absent o.name front) todo
      → Rereads front todo fuel st
  args-Rereads todo front zero st lt v opts plain dist fr =
      let (c, s, p, q) = printed-space todo in absurd (omega (arith, ap length p, lt))
  args-Rereads [] front (suc fuel) st lt v opts plain dist fr =
      (st, [], unfold parse_arguments printed take_run is_space in refl, opts, refl)
  args-Rereads (o ∷ todo) front (suc fuel) st lt v opts (pl, plain) (absent, dist) (fro, fr) =
      elim (Bool-cases o.flags.opt_present) [
        | inl y ↦
            let (c, s, pc, sp) = printed-space todo in
            let found = stores o todo front st opts fro in
            let (val, st1, here, same, look, v1) =
              parse_argument-word o.name (given o) c s st pl.0
                (plain-NoSpace (text_of (given o)) pl.1) sp v
                (λ val t. (front ++ stored o val ∷ map unset todo, found val)) in
            let opts1 : st1.options ≡ front ++ stored o val ∷ map unset todo =
              cc (look, found val) in
            set_step o val todo front fuel st st1 y same
              (subst
                (λ t.
                  parse_argument false (o.name ++ (value_text (given o) ++ t)) st ≡ some (t, st1))
                (sym pc) here)
              (args-Rereads todo (front ++ stored o val ∷ []) fuel st1
                (omega (arith, printed-set o todo y, lt)) v1
                (opts1 ∙ sym (append_assoc front (stored o val ∷ []) (map unset todo))) plain dist
                (Absent-snoc todo front o (stored o val) refl absent fr))
        | inr n ↦ unset_step o todo front (suc fuel) st n (
            args-Rereads todo (front ++ unset o ∷ []) (suc fuel) st
              (omega (arith, ap length (printed-unset o todo n), lt)) v
              (opts ∙ sym (append_assoc front (unset o ∷ []) (map unset todo))) plain dist
              (Absent-snoc todo front o (unset o) refl absent fr))
      ]
