-- ===== src/Autoconf/Status.antt =====
-- autoconf.c, parse_config_status_line: the arguments in the comment that configure leaves in config.status.
-- A read behind the end of the line, or of a null pointer, is a fault, `none`.
pub mod Words
use maketool.Common.{
  ℕ, zero, suc, Bool, true, false, not, ◌&&◌, Option, none, some, List, [], ◌∷◌, ◌++◌, length, ◌==◌,
  if◌then◌else◌, ◌>>=◌, Bytes, codes, strip_prefix,
}
use maketool.Estring.{Estring, init, truncate, append_each, is_space}
use maketool.Autoconf.Options.{AcOption, set_option}

-- A loop over the bytes for which a test holds: those, and the bytes where it stops.
unfoldable pub take_run : (ℕ → Bool) → Bytes → Bytes × Bytes
take_run p [] = ([], [])
take_run p (c ∷ s) = let rest = take_run p s in if p c then (c ∷ rest.0, rest.1) else ([], c ∷ s)

-- The loop over the file name tests the pointer, not the byte: without a space it runs over the end.
unfoldable pub skip_word : Bytes → Option Bytes
skip_word [] = none
skip_word (c ∷ s) = let rest = skip_word s in if is_space c then some (c ∷ s) else rest

-- where an argument ends
unfoldable pub in_argument : Bool → ℕ → Bool
in_argument true c = not (c == b'\'')
in_argument false c = not (is_space c)

unfoldable pub in_name : Bool → ℕ → Bool
unfolding in_argument
in_name quote c = in_argument quote c && not (c == b'=')

-- `if (quote && *buf == quote) buf++`
unfoldable pub skip_quote : Bool → Bytes → Bytes
skip_quote quote [] = []
skip_quote quote (c ∷ s) = if quote && (c == b'\'') then s else c ∷ s

-- The value behind a name, and the rest.
unfoldable pub take_value : Bool → Bytes → Bytes × Bytes
unfolding take_run in_argument
take_value quote [] = ([], [])
take_value quote (c ∷ s) = if c == b'=' then take_run (in_argument quote) s else ([], c ∷ s)

-- the test for the quote
unfoldable pub is_quoted : Bytes → Bool × Bytes
is_quoted [] = (false, [])
is_quoted (c ∷ s) = if c == b'\'' then (true, s) else (false, c ∷ s)

-- The strings that the loop keeps, and the options.
pub record Status : Type 0 where
  pub name_ : Estring
  pub value_ : Estring
  pub options : List AcOption

-- the lookup, and the change of the option that is found; find_option needs a name unless there are
-- no options
unfoldable pub look_up : List AcOption → Option Bytes → Option Bytes → Option (List AcOption)
look_up [] name value = some []
look_up (opt ∷ opts) name value = name >>= λ n. elim (set_option n value (opt ∷ opts)) [
  | some opts' ↦ some opts'
  | none ↦ some (opt ∷ opts)
]

-- One argument behind its two dashes: the rest of the line, and the state.
unfoldable pub parse_argument : Bool → Bytes → Status → Option (Bytes × Status)
unfolding look_up take_value skip_quote take_run in_name
parse_argument quote buf st =
    let word = take_run (in_name quote) buf in
    let val = take_value quote word.1 in
    append_each (truncate st.name_) word.0 >>= λ name.
    append_each (truncate st.value_) val.0 >>= λ value.
    look_up st.options name.data_ value.data_ >>= λ opts.
    some (skip_quote quote val.1, record { name_ = name; value_ = value; options = opts })

-- One round, and `self` for the rest of the loop; a byte that is not a dash ends it.
unfoldable pub argument_round :
    (Bytes → Status → Option Status) → Bool × Bytes → Status → Option Status
unfolding parse_argument strip_prefix
argument_round self (quote, buf) st = elim (strip_prefix (codes "--") buf) [
  | some buf' ↦ parse_argument quote buf' st >>= λ (rest, st'). self rest st'
  | none ↦ some st
]

-- `for (;;)`; each round takes the dashes away, so the length of the line is enough fuel
unfoldable pub parse_arguments : ℕ → Bytes → Status → Option Status
unfolding argument_round is_quoted take_run
parse_arguments zero buf st = none
parse_arguments (suc fuel) buf st = elim (take_run is_space buf).1 [
  | [] ↦ some st
  | c ∷ s ↦ argument_round (parse_arguments fuel) (is_quoted (c ∷ s)) st
]

-- `buf += 2`
abbrev skip_two : Bytes → Option Bytes
skip_two (a ∷ b ∷ s) = some s
skip_two s = none

unfoldable pub parse_config_status_line : Bytes → List AcOption → Option (List AcOption)
unfolding parse_arguments skip_word
parse_config_status_line line opts = skip_two line >>= λ buf. skip_word buf >>= λ args.
    parse_arguments (suc (length args)) args
      (record { name_ = init; value_ = init; options = opts })
    >>= λ st. some st.options

-- parse_config_status, on the lines that fgets gives, up to 1023 bytes each
unfoldable pub parse_config_status : List Bytes → List AcOption → Option (List AcOption)
unfolding parse_config_status_line
parse_config_status [] opts = some opts
parse_config_status (buf ∷ bufs) opts =
    let rest = parse_config_status bufs opts in
    elim (strip_prefix (codes "# ./configure") buf) [
      | some s ↦ parse_config_status_line buf opts
      | none ↦ elim (strip_prefix (codes "# configure") buf) [
        | some s ↦ parse_config_status_line buf opts
        | none ↦ rest
      ]
    ]
