-- ===== src/Autoconf/Help.antt =====
-- autoconf.c, configure_help_input: the options that `./configure --help` lists. A read behind the
-- end of a line, or of a null pointer, is a fault, `none`.
pub mod Lines
use maketool.Common.{
  ℕ, Bool, true, false, not, ◌&&◌, Option, none, some, List, [], ◌∷◌, ◌++◌, ltb, ◌==◌,
  if◌then◌else◌, ◌>>=◌, Bytes, codes, strip_prefix, drop,
}
use maketool.Estring.{
  Estring, init, text, text_of, truncate, append_each, append_char, append_string, chomp, free,
  is_space, leading_spaces,
}
use maketool.Autoconf.Options.{
  Category, cat_config, cat_directory, cat_host, cat_feature, Argtype, arg_none, arg_fixed,
  arg_optional, AcOption, add_option,
}
use maketool.Autoconf.Status.{take_run}

-- The static variables that the functions below change.
pub record Configure : Type 0 where
  pub current_category : Category
  pub optline : Estring
  pub all_options : List AcOption

unfoldable pub goes_on : ℕ → Bool
goes_on c = not (is_space c) && not (c == b'=') && not (c == b'[')

-- behind an opening bracket
unfoldable pub optional_argument : ℕ → Bytes → Argtype × (Bytes × Bytes)
unfolding take_run
optional_argument c [] = (arg_none, ([], c ∷ []))
optional_argument c (d ∷ x) =
    if d == b'='
    then (arg_optional, take_run (λ e. not (e == b']')) x)
    else (arg_none, ([], c ∷ d ∷ x))

-- The meta argument: its kind, its name, and the rest of the line
unfoldable pub meta_argument : Bytes → Argtype × (Bytes × Bytes)
unfolding take_run optional_argument
meta_argument [] = (arg_none, ([], []))
meta_argument (c ∷ x) =
    if c == b'='
    then (arg_fixed, take_run (λ d. not (is_space d)) x)
    else if c == b'['
    then optional_argument c x
    else (arg_none, ([], c ∷ x))

-- the default, between brackets
unfoldable pub default_value : Bytes → Bytes
unfolding take_run
default_value [] = []
default_value (c ∷ x) = if c == b'[' then (take_run (λ c. not (c == b']')) x).0 else []

-- parse_option_line behind the meta argument: the byte there is skipped, whatever it is
unfoldable pub parse_help :
    Category → Estring → Argtype → Estring → Bytes → List AcOption → Option (List AcOption)
unfolding default_value take_run add_option
parse_help cat opt argtype metavar [] opts = none
parse_help cat opt argtype metavar (c ∷ x) opts =
    let split = take_run (λ c. not (c == b'[')) (take_run is_space x).1 in
    append_each init split.0 >>= λ help. append_each init (default_value split.1) >>= λ def.
    add_option cat opt.data_ argtype metavar.data_ (chomp help).data_ def.data_ opts

-- parse_option_line, on the text of `optline`
unfoldable pub parse_option_line : Category → Bytes → List AcOption → Option (List AcOption)
unfolding parse_help meta_argument goes_on take_run
parse_option_line cat line opts =
    let word = take_run goes_on line in
    let meta = meta_argument word.1 in
    append_each init word.0 >>= λ opt.
    append_each init meta.1.0 >>= λ metavar. parse_help cat opt meta.0 metavar meta.1.1 opts

-- `if (optline.length > 0) parse_option_line()`
unfoldable pub parse_pending : Configure → Option Configure
unfolding parse_option_line
parse_pending st =
    let parsed = parse_option_line st.current_category (text st.optline) st.all_options in
    if ltb 0 st.optline.length_
    then (parsed >>= λ opts. some (record st { all_options = opts }))
    else some st

-- the categories that configure_help_input knows
unfoldable pub category_of : Category → Bytes → Category
category_of cat line = elim (strip_prefix (codes "Configuration:") line) [
  | some s ↦ cat_config
  | none ↦ elim (strip_prefix (codes "Directory and file names:") line) [
    | some s ↦ cat_directory
    | none ↦ elim (strip_prefix (codes "Host type:") line) [
      | some s ↦ cat_host
      | none ↦ elim (strip_prefix (codes "Features and packages:") line) [
        | some s ↦ cat_feature
        | none ↦ elim (strip_prefix (codes "--enable and --with options recognized:") line) [
          | some s ↦ cat_feature
          | none ↦ cat
        ]
      ]
    ]
  ]
]

-- a line of a new option, behind `  --`
unfoldable pub option_line : Bytes → Configure → Option Configure
unfolding parse_pending
option_line rest st = parse_pending st >>= λ st1.
    append_string (truncate st1.optline) (some rest) >>= λ e.
    some (record st1 { optline = chomp e })

-- a continuation line
unfoldable pub continuation_line : Bytes → Configure → Option Configure
unfolding take_run
continuation_line line st = append_char st.optline b' ' >>= λ e.
    append_string e (some (take_run is_space line).1) >>= λ e'. some (record st { optline = e' })

-- categories and all else
unfoldable pub category_line : Bytes → Configure → Option Configure
unfolding parse_pending category_of
category_line line st = parse_pending st >>= λ st1. some (record st1 {
  optline = truncate st1.optline;
  current_category = category_of st1.current_category line;
})

-- three spaces in front
unfoldable pub is_indented : Bytes → Bool
is_indented (a ∷ b ∷ c ∷ s) = is_space a && is_space b && is_space c
is_indented s = false

-- a line that starts like a known piece of fluff
unfoldable pub is_fluff : Bytes → Bool
is_fluff line = elim (strip_prefix (codes "Usage:") line) [
  | some s ↦ true
  | none ↦ elim (strip_prefix (codes "Options:") line) [ some s ↦ true | none ↦ false ]
]

unfoldable pub configure_help_input : Bytes → Configure → Option Configure
unfolding option_line continuation_line category_line is_indented is_fluff
configure_help_input line st =
    let other = if is_indented line then continuation_line line st else category_line line st in
    let whole : Option Configure = elim (strip_prefix (codes "  --") line) [
      | some rest ↦ option_line rest st
      | none ↦ other
    ] in
    if is_fluff line then some st else whole

unfoldable pub configure_help_reap : Configure → Option Configure
unfolding parse_pending
configure_help_reap st =
    parse_pending st >>= λ st1. some (record st1 { optline = free st1.optline })

-- The lines that the task of read_configure_options gives to it.
unfoldable pub help_lines : List Bytes → Configure → Option Configure
unfolding configure_help_input
help_lines [] st = some st
help_lines (line ∷ lines) st = configure_help_input line st >>= λ st'. help_lines lines st'

-- All the lines of `./configure --help`, from no options; the category stays from the run before.
unfoldable pub read_configure_options : Category → List Bytes → Option Configure
unfolding configure_help_reap help_lines
read_configure_options cat lines =
    help_lines lines (record { current_category = cat; optline = init; all_options = [] })
    >>= configure_help_reap
