-- ===== src/Preferences/Shell.antt =====
-- How a shell reads the flags that prefs_set_var_make_flags of preferences.c builds.
use maketool.Common.{
  ℕ, ◌≡◌, refl, sym, ap, ◌∙◌, false, Option, none, some, List, [], ◌∷◌, ◌++◌, arith, All, has_byte,
  ◌==◌, if◌then◌else◌, ◌>>=◌, Bytes, append_assoc, append-nil, inl, inr, Bool-cases,
}
use maketool.Util.Escape.{
  is_special, is_special-escape, NoPattern, needs_escape, escaped, without_newlines,
}

-- How the byte that is read is quoted.
pub data Quoting : Type 0 where
  bare behind_backslash in_quotes : Quoting

-- A shell's reading of words, where `part` is read of the word: a backslash quotes a byte and takes a
-- newline away, single quotes quote all bytes, and blanks part words. A special byte that is not quoted ends in `none`.
unfoldable pub shell_words : Quoting → Bytes → Bytes → Option (List Bytes)
shell_words bare part [] = some (part ∷ [])
shell_words behind_backslash part [] = none
shell_words in_quotes part [] = none
shell_words bare part (c ∷ s) =
    let next = (shell_words bare [] s >>= λ ws. some (part ∷ ws)) in
    let escape = shell_words behind_backslash part s in
    let quote = shell_words in_quotes part s in
    let same = shell_words bare (part ++ c ∷ []) s in
    if c == b' '
    then next
    else if c == b'\\'
    then escape
    else if c == b'\''
    then quote
    else if is_special c
    then none
    else same
shell_words behind_backslash part (c ∷ s) =
    let dropped = shell_words bare part s in
    let same = shell_words bare (part ++ c ∷ []) s in if c == b'\n' then dropped else same
shell_words in_quotes part (c ∷ s) =
    let closed = shell_words bare part s in
    let same = shell_words in_quotes (part ++ c ∷ []) s in if c == b'\'' then closed else same

-- Nothing in a text is special to a shell.
abbrev pub Plain : Bytes → Type 0
Plain s = All (λ c. is_special c ≡ false) s

plain_byte :
    (c : ℕ)
    → is_special c ≡ false
    → ((c == b' ') ≡ false) × ((c == b'\\') ≡ false) × ((c == b'\'') ≡ false)
unfolding is_special
plain_byte c h = (ground (arith, h), ground (arith, h), ground (arith, h))

newline_special : (c : ℕ) → is_special c ≡ false → (c == b'\n') ≡ false
unfolding is_special
newline_special c h = ground (arith, h)

pub read-Plain :
    (part w s : Bytes) → Plain w → shell_words bare part (w ++ s) ≡ shell_words bare (part ++ w) s
unfolding shell_words
read-Plain part [] s h = ap (λ p. shell_words bare p s) (sym (append-nil part))
read-Plain part (c ∷ w) s (n, h) =
    let (a, b, q) = plain_byte c n in
    rw a (
      rw b (
        rw q (
          rw n (
            read-Plain (part ++ c ∷ []) w s h
            ∙ ap (λ p. shell_words bare p s) (append_assoc part (c ∷ []) w)))))

pub read-quoted :
    (part v s : Bytes)
    → has_byte b'\'' v ≡ false
    → shell_words in_quotes part (v ++ b'\'' ∷ s) ≡ shell_words bare (part ++ v) s
unfolding shell_words has_byte
read-quoted part [] s h = ap (λ p. shell_words bare p s) (sym (append-nil part))
read-quoted part (c ∷ v) s h = elim (Bool-cases (c == b'\'')) [
  | inl y ↦ absurd (cc (rw y at h))
  | inr n ↦ rw n (
      read-quoted (part ++ c ∷ []) v s (rw n at h)
      ∙ ap (λ p. shell_words bare p s) (append_assoc part (c ∷ []) v))
]

pub read-escaped :
    (part v s : Bytes)
    → NoPattern v
    → shell_words bare part (escaped v ++ s) ≡ shell_words bare (part ++ without_newlines v) s
unfolding shell_words escaped without_newlines
read-escaped part [] s h = ap (λ p. shell_words bare p s) (sym (append-nil part))
read-escaped part (c ∷ v) s ((br, ti), h) = elim (Bool-cases (needs_escape c)) [
  | inl y ↦ elim (Bool-cases (c == b'\n')) [
    | inl l ↦ rw y (rw l (read-escaped part v s h))
    | inr n ↦ rw y (
        rw n (
          read-escaped (part ++ c ∷ []) v s h
          ∙ ap (λ p. shell_words bare p s) (append_assoc part (c ∷ []) (without_newlines v))))
  ]
  | inr n ↦
      let m = is_special-escape c n br ti in
      let (a, b, q) = plain_byte c m in
      rw n (
        rw (newline_special c m) (
          rw a (
            rw b (
              rw q (
                rw m (
                  read-escaped (part ++ c ∷ []) v s h
                  ∙ ap (λ p. shell_words bare p s)
                      (append_assoc part (c ∷ []) (without_newlines v))))))))
]

pub open_quote : (part s : Bytes) → shell_words bare part (b'\'' ∷ s) ≡ shell_words in_quotes part s
unfolding shell_words
open_quote part s = refl

pub read_equals :
    (part s : Bytes) → shell_words bare part (b'=' ∷ s) ≡ shell_words bare (part ++ b'=' ∷ []) s
unfolding shell_words is_special
read_equals part s = refl

pub read_space :
    (part s : Bytes)
    → shell_words bare part (b' ' ∷ s) ≡ (shell_words bare [] s >>= λ ws. some (part ∷ ws))
unfolding shell_words
read_space part s = refl
