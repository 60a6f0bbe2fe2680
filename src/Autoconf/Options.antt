-- ===== src/Autoconf/Options.antt =====
-- autoconf.c: the list of options, and the configure command that is built from it. A null pointer that
-- is read, or a write out of bounds, is a fault, `none`.
use maketool.Common.{
  ℕ, ◌-◌, Bool, true, false, ◌&&◌, Option, none, some, List, [], ◌∷◌, ◌++◌, leb, ◌==◌,
  if◌then◌else◌, ◌>>=◌, Bytes, codes, str_eq, strip_prefix,
}
use maketool.Estring.{Estring, init, text, append_string, append_printf}
use maketool.Util.Escape.{strescape}

pub data Category : Type 0 where
  cat_none cat_config cat_directory cat_host cat_feature : Category

pub data Argtype : Type 0 where
  arg_none arg_fixed arg_optional : Argtype

-- the bits of `flags`
pub record OptFlags : Type 0 where
  pub opt_advanced : Bool
  pub opt_present : Bool
  pub opt_nometa : Bool
  pub opt_nospace : Bool
  pub opt_silent : Bool

-- `option_t`, without its widgets
pub record AcOption : Type 0 where
  pub name : Bytes
  pub category : Category
  pub argtype : Argtype
  pub metavar : Option Bytes
  pub help : Bytes
  pub defvalue : Option Bytes
  pub value : Option Bytes
  pub flags : OptFlags

abbrev pub no_flags : OptFlags
no_flags = record {
  opt_advanced = false;
  opt_present = false;
  opt_nometa = false;
  opt_nospace = false;
  opt_silent = false;
}

abbrev silent : OptFlags
silent = record no_flags { opt_silent = true }

abbrev advanced : OptFlags
advanced = record no_flags { opt_advanced = true }

abbrev advanced_nospace : OptFlags
advanced_nospace = record no_flags { opt_advanced = true; opt_nospace = true }

abbrev plain_word : OptFlags
plain_word = record no_flags { opt_nospace = true; opt_nometa = true }

abbrev advanced_word : OptFlags
advanced_word = record no_flags { opt_advanced = true; opt_nospace = true; opt_nometa = true }

abbrev pub initial_opt_flags : List (Bytes × OptFlags)
initial_opt_flags =
    (codes "cache-file", advanced_word)
    ∷ (codes "no-create", advanced)
    ∷ (codes "quiet,", silent)
    ∷ (codes "quiet", advanced)
    ∷ (codes "prefix", plain_word)
    ∷ (codes "exec-prefix", advanced_word)
    ∷ (codes "bindir", advanced_word)
    ∷ (codes "sbindir", advanced_word)
    ∷ (codes "libexecdir", advanced_word)
    ∷ (codes "datadir", advanced_word)
    ∷ (codes "sysconfdir", advanced_word)
    ∷ (codes "sharedstatedir", advanced_word)
    ∷ (codes "localstatedir", advanced_word)
    ∷ (codes "libdir", advanced_word)
    ∷ (codes "includedir", advanced_word)
    ∷ (codes "oldincludedir", advanced_word)
    ∷ (codes "infodir", advanced_word)
    ∷ (codes "mandir", advanced_word)
    ∷ (codes "srcdir", advanced_word)
    ∷ (codes "program-prefix", advanced_nospace)
    ∷ (codes "program-suffix", advanced_nospace)
    ∷ (codes "program-transform-name", advanced)
    ∷ (codes "host", advanced_nospace)
    ∷ (codes "build", advanced_nospace)
    ∷ (codes "target", advanced_nospace)
    ∷ (codes "x-includes", advanced)
    ∷ (codes "x-libraries", advanced)
    ∷ (codes "enable-maintainer-mode", advanced)
    ∷ (codes "help", silent)
    ∷ (codes "version", silent)
    ∷ (codes "disable-FEATURE", silent)
    ∷ (codes "enable-FEATURE", silent)
    ∷ (codes "with-PACKAGE", silent)
    ∷ (codes "without-PACKAGE", silent)
    ∷ []

-- benum_lookup_str, with 0 for -1 as add_option has it
unfoldable pub benum_lookup_str : List (Bytes × OptFlags) → Bytes → OptFlags
benum_lookup_str [] str = no_flags
benum_lookup_str ((name, value) ∷ be) str =
    if str_eq name str then value else benum_lookup_str be str

-- the choice of `defval`
unfoldable pub default_of : Bytes → Bytes → Bytes
default_of name def = elim (strip_prefix (codes "PREFIX/") def) [
  | some rest ↦ codes "${prefix}/" ++ rest
  | none ↦ elim (strip_prefix (codes "EPREFIX/") def) [
    | some rest ↦ codes "${exec_prefix}/" ++ rest
    | none ↦ if str_eq name (codes "exec-prefix") then codes "${prefix}" else def
  ]
]

-- `toupper` on the first byte, if it is `islower`
unfoldable pub capitalised : Bytes → Bytes
capitalised [] = []
capitalised (c ∷ s) = if leb b'a' c && leb c b'z' then (c - 32) ∷ s else c ∷ s

-- add_option behind the lookup of the flags
unfoldable pub add_flagged :
    Category
    → Bytes
    → Argtype
    → Option Bytes
    → Bytes
    → Option Bytes
    → OptFlags
    → List AcOption
    → List AcOption
unfolding default_of capitalised
add_flagged cat name argtype metavar help def flags opts =
    if flags.opt_silent
    then opts
    else opts
      ++ record {
        name = name;
        category = cat;
        argtype = argtype;
        metavar = metavar;
        help = capitalised help;
        defvalue = (def >>= λ d. some (default_of name d));
        value = (def >>= λ d. some (default_of name d));
        flags = flags;
      }
        ∷ []

-- add_option: an option that is not silent needs its help, whose first byte is read
unfoldable pub add_option :
    Category
    → Option Bytes
    → Argtype
    → Option Bytes
    → Option Bytes
    → Option Bytes
    → List AcOption
    → Option (List AcOption)
unfolding add_flagged benum_lookup_str
add_option cat name argtype metavar help def opts = name >>= λ n.
    let flags = benum_lookup_str initial_opt_flags n in
    let added = (help >>= λ h. some (add_flagged cat n argtype metavar h def flags opts)) in
    if flags.opt_silent then some opts else added

-- find_option, and what parse_config_status_line does with the option that it gives: the list
-- behind it, or nothing if there is no such option
unfoldable pub set_option : Bytes → Option Bytes → List AcOption → Option (List AcOption)
set_option name value [] = none
set_option name value (opt ∷ opts) =
    let rest = set_option name value opts in
    if str_eq opt.name name
    then some (record opt { value = value; flags = record opt.flags { opt_present = true } } ∷ opts)
    else (rest >>= λ opts'. some (opt ∷ opts'))

abbrev category_number : Category → ℕ
category_number cat = elim cat [
  | cat_none ↦ 0
  | cat_config ↦ 1
  | cat_directory ↦ 2
  | cat_host ↦ 3
  | cat_feature ↦ 4
]

-- select_options
unfoldable pub select_options : Category → List AcOption → List AcOption
select_options cat [] = []
select_options cat (opt ∷ opts) =
    let rest = select_options cat opts in
    if category_number opt.category == category_number cat then opt ∷ rest else rest

-- the switch of build_configure_command
unfoldable pub argument : Argtype → Option Bytes → Option Bytes
argument arg_none value = none
argument arg_fixed none = some []
argument arg_fixed (some v) = some v
argument arg_optional (some []) = none
argument arg_optional value = value

-- The bound that glib computes for what a format prints, which estring_append_printf makes room for.
module _ (upper_bound : Bytes → ℕ) where
  abbrev pub append_format : Estring → Bytes → Option Estring
  append_format e s = append_printf e (upper_bound s) s

  unfoldable pub append_argument : Estring → Option Bytes → Option Estring
  append_argument e none = some e
  append_argument e (some val) = strescape val >>= λ v. append_format e (b'=' ∷ v)

  -- the loop of build_configure_command
  unfoldable pub append_options : List AcOption → Estring → Option Estring
  unfolding append_argument argument
  append_options [] cmd = some cmd
  append_options (opt ∷ opts) cmd =
      let skipped = append_options opts cmd in
      let rest = append_options opts in
      let appended =
        (append_format cmd (codes " --" ++ opt.name) >>= λ e.
        append_argument e (argument opt.argtype opt.value) >>= λ e'. rest e') in
      if opt.flags.opt_present then appended else skipped

  -- build_configure_command
  unfoldable pub build_configure_command : List AcOption → Option Bytes
  unfolding append_options
  build_configure_command opts = append_string init (some (codes "./configure")) >>= λ e.
      append_options opts e >>= λ e'. some (text e')
