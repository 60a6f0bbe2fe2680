-- ===== src/Util/Escape.antt =====
-- `strescape` of util.c, and how a shell reads its result.
use maketool.Common.{
  ℕ, ◌≡◌, refl, Bool, true, false, ◌||◌, Option, none, some, [], ◌∷◌, ◌++◌, arith, Bytes, codes,
  has_byte, ◌==◌, if◌then◌else◌, ◌>>=◌, ◌∙◌, append_assoc, sym, append-nil, inl, inr, Bool-cases,
  All, ap,
}
use maketool.Estring
use maketool.Estring.{Estring, text, append_char, is_space}
use maketool.Estring.Bounds.{IsValid, init-IsValid, text-empty, Appended, append_char_lem}

-- `_util_metachars`
abbrev metachars : Bytes
metachars = codes "'`\"&|$(){};<>\\#*?"

unfoldable pub is_meta_char : ℕ → Bool
unfolding has_byte
is_meta_char c = has_byte c metachars

unfoldable pub needs_escape : ℕ → Bool
unfolding is_meta_char is_space
needs_escape c = is_meta_char c || is_space c

-- the body of the loop
pub escape_char : Estring → ℕ → Option Estring
escape_char e c =
    (if needs_escape c then append_char e b'\\' else some e) >>= λ e'. append_char e' c

pub escape_loop : Estring → Bytes → Option Estring
escape_loop e [] = some e
escape_loop e (c ∷ s) = escape_char e c >>= λ e'. escape_loop e' s

pub strescape : Bytes → Option Bytes
strescape s = escape_loop Estring.init s >>= λ e. if e.length_ == 0 then some [] else some (text e)

-- What is special to a POSIX shell in a word without quotes (XCU 2.2): the operators, the quoting
-- bytes and the blanks, and what stands for patterns, comments and the home directory.
unfoldable pub is_special : ℕ → Bool
is_special c =
    (c == b'|' || c == b'&' || c == b';' || c == b'<' || c == b'>' || c == b'(' || c == b')')
    || (c == b'$' || c == b'`' || c == b'\\' || c == b'"' || c == b'\'' || c == b' ' || c == b'\t')
    || (c == b'\n' || c == b'*' || c == b'?' || c == b'[' || c == b'#' || c == b'~')

-- The shell's reading of one word without quotes: a backslash quotes the byte behind it, but a
-- quoted newline is a line continuation, and vanishes. A special byte that is not quoted would end
-- the word or change it, and nothing at all is no word. The flag says that a backslash stands in
-- front.
shell_from : Bool → Bytes → Option Bytes
shell_from true [] = none
shell_from false [] = some []
shell_from true (c ∷ s) =
    let rest = shell_from false s in if c == b'\n' then rest else (rest >>= λ w. some (c ∷ w))
shell_from false (c ∷ s) =
    let quoted = shell_from true s in
    let rest = shell_from false s in
    if c == b'\\' then quoted else if is_special c then none else (rest >>= λ w. some (c ∷ w))

pub shell_word : Bytes → Option Bytes
unfolding shell_from
shell_word [] = none
shell_word (c ∷ s) = shell_from false (c ∷ s)

unfoldable pub without_newlines : Bytes → Bytes
without_newlines [] = []
without_newlines (c ∷ s) = let rest = without_newlines s in if c == b'\n' then rest else c ∷ rest

-- What the loop appends for a text.
unfoldable pub escaped : Bytes → Bytes
escaped [] = []
escaped (c ∷ s) = (if needs_escape c then b'\\' ∷ c ∷ [] else c ∷ []) ++ escaped s

escape_char_lem :
    (e : Estring) (c : ℕ) → IsValid e → Appended e (escaped (c ∷ [])) (escape_char e c)
unfolding escape_char escaped
escape_char_lem e c v = elim (Bool-cases (needs_escape c)) [
  | inl y ↦
      let (e1, p1, t1, v1) = append_char_lem e b'\\' v in
      let (e2, p2, t2, v2) = append_char_lem e1 c v1 in
      (e2, rw y (rw p1 p2), rw y (t2 ∙ rw t1 (append_assoc (text e) (b'\\' ∷ []) (c ∷ []))), v2)
  | inr n ↦ rw n (append_char_lem e c v)
]

escape_loop_lem : (e : Estring) (s : Bytes) → IsValid e → Appended e (escaped s) (escape_loop e s)
unfolding escape_loop escaped
escape_loop_lem e [] v = (e, refl, sym (append-nil (text e)), v)
escape_loop_lem e (c ∷ s) v =
    let (e1, p1, t1, v1) = escape_char_lem e c v in
    let (e2, p2, t2, v2) = escape_loop_lem e1 s v1 in
    (
      e2,
      rw p1 p2,
      t2
          ∙ ground (
            arith,
            t1,
            append_assoc (text e) (c ∷ []) (escaped s),
            append_assoc (text e) (b'\\' ∷ c ∷ []) (escaped s),
          ),
      v2,
    )

pub strescape_lem : (s : Bytes) → strescape s ≡ some (escaped s)
unfolding strescape
strescape_lem s =
    let (e, p, t, v) = escape_loop_lem Estring.init s init-IsValid in
    rw p (ground (arith, t, text-empty e v))

-- No byte of a text needs a backslash.
abbrev pub NeedsNone : Bytes → Type 0
NeedsNone s = All (λ c. needs_escape c ≡ false) s

escaped-NeedsNone : (s : Bytes) → NeedsNone s → escaped s ≡ s
unfolding escaped
escaped-NeedsNone [] h = refl
escaped-NeedsNone (c ∷ s) (n, h) = rw n (ap (λ t. c ∷ t) (escaped-NeedsNone s h))

pub strescape-NeedsNone : (s : Bytes) → NeedsNone s → strescape s ≡ some s
strescape-NeedsNone s h = strescape_lem s ∙ ap (λ t. some t) (escaped-NeedsNone s h)

pub needs_escape-is_space : (c : ℕ) → needs_escape c ≡ false → is_space c ≡ false
unfolding needs_escape
needs_escape-is_space c h = ground (arith, h)

-- What needs no backslash is not special to a shell, brackets and tildes aside.
pub is_special-escape :
    (c : ℕ)
    → needs_escape c ≡ false
    → (c == b'[') ≡ false
    → (c == b'~') ≡ false
    → is_special c ≡ false
unfolding needs_escape is_meta_char is_space has_byte is_special
is_special-escape c h b t = ground (arith, h, b, t)

-- A text with no opening bracket and no tilde.
abbrev pub NoPattern : Bytes → Type 0
NoPattern s = All (λ c. ((c == b'[') ≡ false) × ((c == b'~') ≡ false)) s
