-- ===== src/Autoconf/Reread/Command.antt =====
-- autoconf.c: a configure command that is written to config.status and read back.
use maketool.Common.{
  ℕ, suc, ◌≡◌, refl, sym, ap, ◌∙◌, true, Option, none, some, List, [], ◌∷◌, ◌++◌, arith, length,
  All, map, ◌>>=◌, Bytes, codes, append_assoc, append-nil, inl, inr, Bool-cases, Option-cases,
}
use maketool.Estring.{
  Estring, text, text_of, init, append_printf, append_string, append_chars, expand_by, write,
  is_space,
}
use maketool.Estring.Bounds.{init-IsValid}
use maketool.Util.Escape.{NeedsNone, strescape-NeedsNone}
use maketool.Autoconf.Options.{
  AcOption, append_argument, append_format, append_options, build_configure_command,
}
use maketool.Autoconf.Status.{Status, skip_word, parse_config_status_line}
use maketool.Autoconf.Status.Words.{value_text}
use maketool.Autoconf.Reread.{unset, given, IsPlain, Distinct, All-Absent, printed, printed-space}
use maketool.Autoconf.Reread.Arguments.{args-Rereads}

skip_word-space : (c : ℕ) (s : Bytes) → is_space c ≡ true → skip_word (c ∷ s) ≡ some (c ∷ s)
unfolding skip_word
skip_word-space c s h = rw h refl

module _ (upper_bound : Bytes → ℕ) where
  append_format-text :
      (e e' : Estring) (s : Bytes) → append_format upper_bound e s ≡ some e' → text e' ≡ text e ++ s
  unfolding append_printf expand_by write
  append_format-text e e' s h = ground (arith, h)

  append_argument-text :
      (v : Option Bytes) (e e' : Estring)
      → NeedsNone (text_of v)
      → append_argument upper_bound e v ≡ some e'
      → text e' ≡ text e ++ value_text v
  unfolding append_argument
  append_argument-text none e e' plain h =
      let same : e ≡ e' = cc h in sym (ap text same) ∙ sym (append-nil (text e))
  append_argument-text (some v) e e' plain h = append_format-text e e' (b'=' ∷ v) (
      sym (
        ap (λ o. o >>= λ v'. append_format upper_bound e (b'=' ∷ v')) (strescape-NeedsNone v plain))
      ∙ h)

  append_options-text :
      (opts : List AcOption) (e e' : Estring)
      → All IsPlain opts
      → append_options upper_bound opts e ≡ some e'
      → text e' ++ b'\n' ∷ [] ≡ text e ++ printed opts
  unfolding append_options printed
  append_options-text [] e e' plain h =
      let same : e ≡ e' = cc h in ap (λ x. text x ++ b'\n' ∷ []) (sym same)
  append_options-text (o ∷ opts) e e' (pl, plain) h = elim (Bool-cases o.flags.opt_present) [
    | inl y ↦ elim (Option-cases (append_format upper_bound e (codes " --" ++ o.name))) [
      | inl p1 ↦ absurd (cc (rw (y, p1) at h))
      | inr (e1, p1) ↦ elim (Option-cases (append_argument upper_bound e1 (given o))) [
        | inl p2 ↦ absurd (cc (rw (y, p1, p2) at h))
        | inr (e2, p2) ↦ rw y (
            append_options-text opts e2 e' plain (rw (y, p1, p2) at h)
            ∙ ap (λ x. x ++ printed opts)
                (append_argument-text (given o) e1 e2 pl.1 p2
                  ∙ ap (λ x. x ++ value_text (given o))
                      (append_format-text e e1 (codes " --" ++ o.name) p1))
            ∙ append_assoc (text e ++ (codes " --" ++ o.name)) (value_text (given o)) (printed opts)
            ∙ append_assoc (text e) (codes " --" ++ o.name) (value_text (given o) ++ printed opts))
      ]
    ]
    | inr n ↦ rw n (append_options-text opts e e' plain (rw n at h))
  ]

  -- build_configure_command, with a newline behind it
  command-printed :
      (opts : List AcOption) (cmd : Bytes)
      → All IsPlain opts
      → build_configure_command upper_bound opts ≡ some cmd
      → cmd ++ b'\n' ∷ [] ≡ codes "./configure" ++ printed opts
  unfolding build_configure_command append_string append_chars expand_by write
  command-printed opts cmd plain h =
      let start : Estring = record {
        data_ = some (codes "./configure");
        length_ = 11;
        available = 12;
      } in
      elim (Option-cases (append_options upper_bound opts start)) [
        | inl p ↦ absurd (cc (rw p at h))
        | inr (e, p) ↦
            let same : some (text e) ≡ some cmd = rw p at h in
            ap (λ o. text_of o ++ b'\n' ∷ []) (sym same) ∙ append_options-text opts start e plain p
      ]

  skip_word-command :
      (opts : List AcOption) → skip_word (codes "./configure" ++ printed opts) ≡ some (printed opts)
  unfolding skip_word is_space
  skip_word-command opts =
      let (c, s, p, q) = printed-space opts in
      let here : skip_word (codes "./configure" ++ printed opts) ≡ skip_word (printed opts) =
        refl in
      here ∙ ap skip_word p ∙ skip_word-space c s q ∙ ap (λ t. some t) (sym p)

  build-same :
      (opts opts' : List AcOption)
      → append_options upper_bound opts ≡ append_options upper_bound opts'
      → build_configure_command upper_bound opts ≡ build_configure_command upper_bound opts'
  unfolding build_configure_command
  build-same opts opts' h =
      ap
        (λ f. append_string init (some (codes "./configure")) >>= λ e. f e >>= λ e'. some (text e'))
        h

  -- The command of any options with plain and different names and plain values comes back: where configure leaves it
  -- in config.status, parse_config_status_line sets the options that `./configure --help` lists so that
  -- build_configure_command gives the same command.
  pub build_configure_command-parse_config_status_line :
      (opts : List AcOption) (cmd : Bytes)
      → All IsPlain opts
      → Distinct opts
      → build_configure_command upper_bound opts ≡ some cmd
      → (opts' : List AcOption) × (parse_config_status_line
            (codes "# " ++ (cmd ++ b'\n' ∷ []))
            (map unset opts)
          ≡ some opts')
        × (build_configure_command upper_bound opts' ≡ some cmd)
  unfolding parse_config_status_line
  build_configure_command-parse_config_status_line opts cmd plain dist h =
      let start : Status = record { name_ = init; value_ = init; options = map unset opts } in
      let (st', out, p, q, r) =
        args-Rereads upper_bound opts [] (suc (length (printed opts))) start (omega arith)
          (init-IsValid, init-IsValid) refl plain dist (All-Absent opts) in
      (
        st'.options,
        rw (command-printed opts cmd plain h) (rw (skip_word-command opts) (rw p refl)),
        build-same st'.options opts (ap (append_options upper_bound) q ∙ r) ∙ h,
      )
