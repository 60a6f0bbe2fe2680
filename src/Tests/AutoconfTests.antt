-- ===== src/Tests/AutoconfTests.antt =====
-- Runs of autoconf.c: a configure command that is read back, and a help text of a newer autoconf.
use maketool.Common.{
  ℕ, ◌≡◌, refl, true, Option, none, some, List, [], ◌∷◌, ◌++◌, ◌>>=◌, map, length, Bytes, codes,
  str_eq, has_byte, strip_prefix,
}
use maketool.Estring.{init, append_string, append_chars, append_printf, expand_by, write, is_space}
use maketool.Util.Escape.{needs_escape, is_meta_char, NeedsNone, strescape-NeedsNone}
use maketool.Autoconf.Options.{
  cat_directory, cat_config, Argtype, arg_none, arg_fixed, AcOption, no_flags, argument,
  append_argument, append_options, build_configure_command,
}
use maketool.Autoconf.Status.{parse_config_status_line}
use maketool.Autoconf.Status.Words.{IsName}
use maketool.Autoconf.Help.{Configure, is_indented, is_fluff, configure_help_reap, help_lines}
use maketool.Autoconf.Help.Lines.{help_lines-stray}
use maketool.Autoconf.Reread.{unset}
use maketool.Autoconf.Reread.Command.{build_configure_command-parse_config_status_line}

abbrev option : Bytes → Argtype → Option Bytes → AcOption
option name argtype value = record {
  name = name;
  category = cat_directory;
  argtype = argtype;
  metavar = none;
  help = [];
  defvalue = none;
  value = value;
  flags = record no_flags { opt_present = true };
}

abbrev three_options : List AcOption
three_options =
    option (codes "prefix") arg_fixed (some (codes "/u"))
    ∷ unset (option (codes "srcdir") arg_fixed none)
    ∷ option (codes "quiet") arg_none none
    ∷ []

abbrev the_command : Bytes
the_command = codes "./configure --prefix=/u --quiet"

abbrev exact_bound : Bytes → ℕ
exact_bound s = length s

plain_value : NeedsNone (codes "/u")
unfolding needs_escape is_meta_char is_space has_byte
plain_value = (refl, (refl, tt))

prefix-IsName : IsName (codes "prefix")
unfolding is_space
prefix-IsName = (
  (λ e. absurd (cc)),
  (
    (refl, refl),
    ((refl, refl), ((refl, refl), ((refl, refl), ((refl, refl), ((refl, refl), tt))))),
  ),
)

srcdir-IsName : IsName (codes "srcdir")
unfolding is_space
srcdir-IsName = (
  (λ e. absurd (cc)),
  (
    (refl, refl),
    ((refl, refl), ((refl, refl), ((refl, refl), ((refl, refl), ((refl, refl), tt))))),
  ),
)

quiet-IsName : IsName (codes "quiet")
unfolding is_space
quiet-IsName = (
  (λ e. absurd (cc)),
  ((refl, refl), ((refl, refl), ((refl, refl), ((refl, refl), ((refl, refl), tt))))),
)

the_command-built : build_configure_command exact_bound three_options ≡ some the_command
unfolding build_configure_command append_options append_argument argument append_string append_chars
    append_printf expand_by write
the_command-built = rw (strescape-NeedsNone (codes "/u") plain_value) refl

build_configure_command-parse_config_status_line_example :
    (opts' : List AcOption) × (parse_config_status_line
        (codes "# " ++ (the_command ++ b'\n' ∷ []))
        (map unset three_options)
      ≡ some opts')
    × (build_configure_command exact_bound opts' ≡ some the_command)
build_configure_command-parse_config_status_line_example =
    build_configure_command-parse_config_status_line exact_bound three_options the_command
      (
        (prefix-IsName, unfold argument in plain_value),
        ((srcdir-IsName, unfold argument in tt), ((quiet-IsName, unfold argument in tt), tt)),
      )
      (unfold str_eq in ((refl, (refl, tt)), ((refl, tt), (tt, refl)))) the_command-built

abbrev no_options : Configure
no_options = record { current_category = cat_config; optline = init; all_options = [] }

help_lines-stray_example :
    (help_lines
        (codes "      --help=short        display options" ∷ codes "  -V, --version" ∷ [])
        no_options
      >>= configure_help_reap)
    ≡ none
help_lines-stray_example =
    help_lines-stray (codes "      --help=short        display options")
      (codes "  -V, --version" ∷ []) no_options (unfold is_indented is_space in refl)
      (unfold is_fluff strip_prefix in refl) (unfold strip_prefix in refl) refl
