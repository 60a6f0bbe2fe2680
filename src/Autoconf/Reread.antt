-- ===== src/Autoconf/Reread.antt =====
-- autoconf.c: the arguments of a configure command, as they come back from config.status.
pub mod Arguments
pub mod Command
use maketool.Common.{
  ℕ, zero, suc, ◌<◌, ◌≡◌, refl, sym, ap, ◌∙◌, true, false, Option, none, some, List, [], ◌∷◌, ◌++◌,
  arith, length, length-append, All, All-append, map, if◌then◌else◌, ◌>>=◌, Bytes, strip_prefix,
  codes, str_eq, str_eq_refl, append_assoc, append-nil, inl, inr, Bool-cases, Option-cases,
}
use mathlib.Core.Path.{fun_ext, subst}
use maketool.Estring.{
  Estring, text, text_of, init, append_printf, append_string, append_chars, expand_by, write,
  is_space,
}
use maketool.Estring.Bounds.{init-IsValid}
use maketool.Util.Escape.{NeedsNone, strescape-NeedsNone, needs_escape-is_space}
use maketool.Autoconf.Options.{
  Argtype, arg_none, arg_fixed, arg_optional, AcOption, set_option, argument, append_argument,
  append_format, append_options, build_configure_command,
}
use maketool.Autoconf.Status.{
  take_run, Status, look_up, parse_argument, argument_round, parse_arguments, is_quoted, skip_word,
  parse_config_status_line,
}
use maketool.Autoconf.Status.Words.{value_text, NoSpace, IsName, Valid, parse_argument-word}

-- An option as read_configure_options leaves it.
abbrev pub unset : AcOption → AcOption
unset o = record o { value = o.defvalue; flags = record o.flags { opt_present = false } }

-- An option that is set: what the configure command gives it.
abbrev pub given : AcOption → Option Bytes
given o = argument o.argtype o.value

-- A name with bytes, none of them a space or an equals sign, and a value with none that the shell treats specially.
abbrev pub IsPlain : AcOption → Type 0
IsPlain o = IsName o.name × NeedsNone (text_of (given o))

abbrev pub Absent : Bytes → List AcOption → Type 0
Absent n opts = All (λ o. str_eq o.name n ≡ false) opts

-- No two options have the same name.
abbrev pub Distinct : List AcOption → Type 0
Distinct [] = true ≡ true
Distinct (o ∷ opts) = All (λ p. str_eq o.name p.name ≡ false) opts × Distinct opts

pub All-Absent : (opts : List AcOption) → All (λ o. Absent o.name []) opts
All-Absent [] = tt
All-Absent (o ∷ opts) = (tt, All-Absent opts)

-- The arguments of the command, and a newline.
unfoldable pub printed : List AcOption → Bytes
printed [] = b'\n' ∷ []
printed (o ∷ opts) =
    let rest = printed opts in
    if o.flags.opt_present then codes " --" ++ (o.name ++ (value_text (given o) ++ rest)) else rest

pub printed-space :
    (opts : List AcOption) → (c : ℕ) × (s : Bytes) × (printed opts ≡ c ∷ s) × (is_space c ≡ true)
unfolding printed is_space
printed-space [] = (b'\n', [], refl, refl)
printed-space (o ∷ opts) = elim (Bool-cases o.flags.opt_present) [
  | inl y ↦
      (b' ', codes "--" ++ (o.name ++ (value_text (given o) ++ printed opts)), rw y refl, refl)
  | inr n ↦ let (c, s, p, q) = printed-space opts in (c, s, rw n p, q)
]

pub printed-unset :
    (o : AcOption) (opts : List AcOption)
    → o.flags.opt_present ≡ false
    → printed (o ∷ opts) ≡ printed opts
unfolding printed
printed-unset o opts n = rw n refl

pub printed-set :
    (o : AcOption) (opts : List AcOption)
    → o.flags.opt_present ≡ true
    → length (printed opts) < length (printed (o ∷ opts))
unfolding printed
printed-set o opts y = rw y (
    omega (
      arith,
      length-append o.name (value_text (given o) ++ printed opts),
      length-append (value_text (given o)) (printed opts),
    ))

pub round_of :
    (fuel : ℕ) (buf : Bytes) (st : Status)
    → parse_arguments (suc fuel) (codes " --" ++ buf) st
      ≡ (parse_argument false buf st >>= λ (rest, st'). parse_arguments fuel rest st')
unfolding parse_arguments argument_round is_quoted take_run strip_prefix is_space
round_of fuel buf st = refl

pub set_option-found :
    (n : Bytes) (val : Option Bytes) (front rest : List AcOption) (o : AcOption)
    → Absent n front
    → o.name ≡ n
    → set_option n val (front ++ o ∷ rest)
      ≡ some
          (front ++ record o { value = val; flags = record o.flags { opt_present = true } } ∷ rest)
unfolding set_option
set_option-found n val [] rest o absent h = rw h (rw (str_eq_refl n) refl)
set_option-found n val (p ∷ front) rest o (other, absent) h =
    rw other (rw (set_option-found n val front rest o absent h) refl)

pub look_up-set :
    (n : Bytes) (val : Option Bytes) (opts opts' : List AcOption)
    → set_option n val opts ≡ some opts'
    → look_up opts (some n) val ≡ some opts'
unfolding look_up set_option
look_up-set n val [] opts' h = absurd (cc)
look_up-set n val (o ∷ opts) opts' h =
    ap (λ r. elim r [ some opts'' ↦ some opts'' | none ↦ some (o ∷ opts) ]) h

-- What the command gives an option comes back.
pub argument-text :
    (t : Argtype) (v val : Option Bytes)
    → text_of val ≡ text_of (argument t v)
    → argument t val ≡ argument t v
unfolding argument
argument-text arg_none v val h = refl
argument-text arg_fixed none none h = refl
argument-text arg_fixed none (some w) h = ap (λ x. some x) h
argument-text arg_fixed (some v) none h = ap (λ x. some x) h
argument-text arg_fixed (some v) (some w) h = ap (λ x. some x) h
argument-text arg_optional none none h = refl
argument-text arg_optional none (some []) h = refl
argument-text arg_optional none (some (d ∷ t)) h = absurd (cc)
argument-text arg_optional (some []) none h = refl
argument-text arg_optional (some []) (some []) h = refl
argument-text arg_optional (some []) (some (d ∷ t)) h = absurd (cc)
argument-text arg_optional (some (c ∷ s)) none h = absurd (cc)
argument-text arg_optional (some (c ∷ s)) (some []) h = absurd (cc)
argument-text arg_optional (some (c ∷ s)) (some (d ∷ t)) h = ap (λ x. some x) h

pub plain-NoSpace : (s : Bytes) → NeedsNone s → NoSpace s
plain-NoSpace [] h = h
plain-NoSpace (c ∷ s) (n, h) = (needs_escape-is_space c n, plain-NoSpace s h)
