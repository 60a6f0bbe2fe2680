-- ===== src/Autoconf/Status/Words.antt =====
-- autoconf.c, parse_config_status_line: what one argument without quotes does.
use maketool.Common.{
  ℕ, ◌≡◌, ◌≢◌, refl, sym, ap, ◌∙◌, Bool, true, false, Option, none, some, List, [], ◌∷◌, ◌++◌,
  arith, All, ◌==◌, Bytes,
}
use maketool.Estring.{Estring, text, text_of, truncate, append_each, is_space}
use maketool.Estring.Bounds.{IsValid}
use maketool.Estring.Text.{append_each_lem, truncate_lem}
use maketool.Autoconf.Options.{AcOption}
use maketool.Autoconf.Status.{
  take_run, in_argument, in_name, skip_quote, take_value, Status, look_up, parse_argument,
}

-- A text that a test stops at.
abbrev StopsAt : (ℕ → Bool) → Bytes → Type 0
StopsAt p [] = true ≡ true
StopsAt p (c ∷ s) = p c ≡ false

take_run-append :
    (p : ℕ → Bool) (w rest : Bytes)
    → All (λ c. p c ≡ true) w
    → StopsAt p rest
    → take_run p (w ++ rest) ≡ (w, rest)
unfolding take_run
take_run-append p [] [] h stop = refl
take_run-append p [] (c ∷ s) h stop = rw stop refl
take_run-append p (c ∷ w) rest (y, h) stop =
    rw y (ap (λ r. (c ∷ r.0, r.1)) (take_run-append p w rest h stop))

-- The text behind an argument.
abbrev pub value_text : Option Bytes → Bytes
value_text none = []
value_text (some v) = b'=' ∷ v

-- No byte of a text is a space.
abbrev pub NoSpace : Bytes → Type 0
NoSpace s = All (λ c. is_space c ≡ false) s

-- The name of an option, as parse_config_status_line can read it.
abbrev pub IsName : Bytes → Type 0
IsName s = (s ≢ []) × All (λ c. (is_space c ≡ false) × ((c == b'=') ≡ false)) s

name-in_name :
    (s : Bytes)
    → All (λ c. (is_space c ≡ false) × ((c == b'=') ≡ false)) s
    → All (λ c. in_name false c ≡ true) s
unfolding in_name in_argument
name-in_name [] h = h
name-in_name (c ∷ s) ((n, m), h) = (rw n (rw m refl), name-in_name s h)

value-in_argument : (s : Bytes) → NoSpace s → All (λ c. in_argument false c ≡ true) s
unfolding in_argument
value-in_argument [] h = h
value-in_argument (c ∷ s) (n, h) = (rw n refl, value-in_argument s h)

space-cases : (c : ℕ) → is_space c ≡ true → (c == b'=') ≡ false
unfolding is_space
space-cases c h = ground (arith, h)

-- The name and the value of an argument, cut at a space.
argument_cut :
    (name : Bytes) (v : Option Bytes) (c : ℕ) (s : Bytes)
    → IsName name
    → NoSpace (text_of v)
    → is_space c ≡ true
    → (take_run (in_name false) (name ++ (value_text v ++ c ∷ s)) ≡ (name, value_text v ++ c ∷ s))
      × (take_value false (value_text v ++ c ∷ s) ≡ (text_of v, c ∷ s))
unfolding take_value
argument_cut name none c s (some_, h) plain sp = (
  take_run-append (in_name false) name (c ∷ s) (name-in_name name h)
      (unfold in_name in_argument in rw sp refl),
  rw (space-cases c sp) refl,
)
argument_cut name (some v) c s (some_, h) plain sp = (
  take_run-append (in_name false) name (b'=' ∷ (v ++ c ∷ s)) (name-in_name name h)
      (unfold in_name in_argument is_space in refl),
  take_run-append (in_argument false) v (c ∷ s) (value-in_argument v plain)
      (unfold in_argument in rw sp refl),
)

data-nonempty : (d : Option Bytes) (s : Bytes) → text_of d ≡ s → s ≢ [] → d ≡ some s
data-nonempty none s h n = absurd (n (sym h))
data-nonempty (some t) s h n = ap (λ x. some x) h

-- The strings that the loop keeps are valid.
abbrev pub Valid : Status → Type 0
Valid st = IsValid st.name_ × IsValid st.value_

appended_afresh :
    (e : Estring) (s : Bytes)
    → IsValid e
    → (e' : Estring) × (append_each (truncate e) s ≡ some e') × (text e' ≡ s) × IsValid e'
appended_afresh e s v =
    let (empty, v1) = truncate_lem e v in
    let (e', p, t, v2) = append_each_lem (truncate e) s v1 in
    (e', p, t ∙ ap (λ x. x ++ s) empty, v2)

-- An argument of a known option: the options become those with its value, and the rest is the text behind it.
pub parse_argument-word :
    (name : Bytes) (v : Option Bytes) (c : ℕ) (s : Bytes) (st : Status)
    → IsName name
    → NoSpace (text_of v)
    → is_space c ≡ true
    → Valid st
    → ((val : Option Bytes)
        → text_of val ≡ text_of v
        → (opts' : List AcOption) × (look_up st.options (some name) val ≡ some opts'))
    → (val : Option Bytes) × (st' : Status) × (parse_argument false
          (name ++ (value_text v ++ c ∷ s))
          st
        ≡ some (c ∷ s, st'))
      × (text_of val ≡ text_of v)
      × (look_up st.options (some name) val ≡ some st'.options)
      × Valid st'
unfolding parse_argument skip_quote
parse_argument-word name v c s st is_name plain sp (nv, vv) known =
    let (a, b) = argument_cut name v c s is_name plain sp in
    let (e1, p1, t1, v1) = appended_afresh st.name_ name nv in
    let (e2, p2, t2, v2) = appended_afresh st.value_ (text_of v) vv in
    let named = data-nonempty e1.data_ name t1 is_name.0 in
    let (opts', look) = known e2.data_ t2 in
    (
      e2.data_,
      record { name_ = e1; value_ = e2; options = opts' },
      rw a (rw b (rw p1 (rw p2 (rw named (rw look refl))))),
      t2,
      look,
      (v1, v2),
    )
