-- ===== src/Preferences/Flags.antt =====
-- preferences.c, prefs_set_var_make_flags: the words of the flags.
use maketool.Common.{
  ◌+◌, ◌<◌, ◌≡◌, refl, sym, ap, ◌∙◌, Bool, true, false, not, Option, none, some, List, [], ◌∷◌,
  ◌++◌, arith, length, length-append, All, ltb, lt→ltb, has_byte, if◌then◌else◌, ◌>>=◌, Bytes,
  append_assoc, append-nil, inl, inr, Bool-cases,
}
use mathlib.Core.Path.{subst}
use maketool.Estring.{Estring, text, text_of, init, append_string, append_char}
use maketool.Estring.Text.{append_char-text, append_string-text}
use maketool.Util.Escape.{NoPattern, escaped, without_newlines, strescape_lem}
use maketool.Preferences.{
  Variable, is_make, append_value, append_flag, append_flags, prefs_set_var_make_flags,
}
use maketool.Preferences.Shell.{
  Plain, bare, shell_words, read-Plain, read-quoted, read-escaped, open_quote, read_equals,
  read_space,
}

-- A string has grown by a text.
abbrev Grows : Estring → Bytes → Estring → Type 0
Grows e s e' = (text e' ≡ text e ++ s) × (e'.length_ ≡ e.length_ + length s)

Grows-trans : (e e1 e2 : Estring) (s t : Bytes) → Grows e s e1 → Grows e1 t e2 → Grows e (s ++ t) e2
Grows-trans e e1 e2 s t (a, l) (b, k) =
    (b ∙ ap (λ x. x ++ t) a ∙ append_assoc (text e) s t, omega (arith, l, k, length-append s t))

bind-some {ℓ} :
    {A B : Type ℓ} (o : Option A) (f : A → Option B) (b : B)
    → (o >>= f) ≡ some b
    → (a : A) × (o ≡ some a) × (f a ≡ some b)
bind-some none f b h = absurd (cc)
bind-some (some a) f b h = (a, refl, h)

-- The value as it stands in the flags.
abbrev value_text : Bytes → Bytes
value_text v = if has_byte b'\'' v then escaped v else b'\'' ∷ (v ++ b'\'' ∷ [])

append_value-Grows :
    (out out' : Estring) (v : Bytes)
    → append_value out v ≡ some out'
    → Grows out (value_text v) out'
unfolding append_value
append_value-Grows out out' v h = elim (Bool-cases (has_byte b'\'' v)) [
  | inl y ↦ rw y (
      append_string-text out out' (escaped v)
        (sym (ap (λ o. o >>= λ x. append_string out (some x)) (strescape_lem v)) ∙ rw y at h))
  | inr n ↦
      let (e1, p1, h1) = bind-some (append_char out b'\'') _ out' (rw n at h) in
      let (e2, p2, h2) = bind-some (append_string e1 (some v)) _ out' h1 in
      rw n (
        Grows-trans out e1 out' (b'\'' ∷ []) (v ++ b'\'' ∷ []) (append_char-text out e1 b'\'' p1) (
          Grows-trans e1 e2 out' v (b'\'' ∷ []) (append_string-text e1 e2 v p2)
            (append_char-text e2 out' b'\'' h2)))
]

-- A flag, with a space in front of it if it is not the first.
abbrev flag_text : Bool → Variable → Bytes
flag_text first var = (if first then [] else b' ' ∷ []) ++ (var.name ++ b'=' ∷ value_text var.value)

append_space-Grows :
    (b : Bool) (out e : Estring)
    → (if b then append_char out b' ' else some out) ≡ some e
    → Grows out (if not b then [] else b' ' ∷ []) e
append_space-Grows true out e h = append_char-text out e b' ' h
append_space-Grows false out e h =
    let same : out ≡ e = cc h in
    (sym (ap text same) ∙ sym (append-nil (text out)), omega (arith, ap (λ x. x.length_) same))

append_flag-Grows :
    (out out' : Estring) (var : Variable)
    → append_flag out var ≡ some out'
    → Grows out (flag_text (not (ltb 0 out.length_)) var) out'
unfolding append_flag
append_flag-Grows out out' var h =
    let (e, p, h1) =
      bind-some (if ltb 0 out.length_ then append_char out b' ' else some out) _ out' h in
    let (e1, p1, h2) = bind-some (append_string e (some var.name)) _ out' h1 in
    let (e2, p2, h3) = bind-some (append_char e1 b'=') _ out' h2 in
    Grows-trans out e out' (if not (ltb 0 out.length_) then [] else b' ' ∷ [])
      (var.name ++ b'=' ∷ value_text var.value) (append_space-Grows (ltb 0 out.length_) out e p)
      (Grows-trans e e1 out' var.name (b'=' ∷ value_text var.value)
        (append_string-text e e1 var.name p1)
        (Grows-trans e1 e2 out' (b'=' ∷ []) (value_text var.value) (append_char-text e1 e2 b'=' p2)
          (append_value-Grows e2 out' var.value h3)))

-- The word that make gets for a variable.
abbrev pub word : Variable → Bytes
word var =
    var.name ++ b'=' ∷ (if has_byte b'\'' var.value then without_newlines var.value else var.value)

unfoldable pub words : List Variable → List Bytes
words [] = []
words (var ∷ vars) = let rest = words vars in if is_make var.type_ then word var ∷ rest else rest

-- The name has nothing special to a shell; and a value with a single quote, which is escaped byte by
-- byte, has no opening bracket and no tilde, which are not.
abbrev pub IsReadable : Variable → Type 0
IsReadable v = Plain v.name × (has_byte b'\'' v.value ≡ true → NoPattern v.value)

read-value :
    (part v s : Bytes)
    → (has_byte b'\'' v ≡ true → NoPattern v)
    → shell_words bare part (value_text v ++ s)
      ≡ shell_words bare (part ++ (if has_byte b'\'' v then without_newlines v else v)) s
read-value part v s h = elim (Bool-cases (has_byte b'\'' v)) [
  | inl y ↦ rw y (read-escaped part v s (h y))
  | inr n ↦ rw n (
      ap (shell_words bare part) (ap (λ x. b'\'' ∷ x) (append_assoc v (b'\'' ∷ []) s))
      ∙ open_quote part (v ++ b'\'' ∷ s)
      ∙ read-quoted part v s n)
]

read-flag :
    (part s : Bytes) (var : Variable)
    → IsReadable var
    → shell_words bare part ((var.name ++ b'=' ∷ value_text var.value) ++ s)
      ≡ shell_words bare (part ++ word var) s
read-flag part s var plain =
    ap (shell_words bare part) (append_assoc var.name (b'=' ∷ value_text var.value) s)
    ∙ read-Plain part var.name (b'=' ∷ (value_text var.value ++ s)) plain.0
    ∙ read_equals (part ++ var.name) (value_text var.value ++ s)
    ∙ read-value ((part ++ var.name) ++ b'=' ∷ []) var.value s plain.1
    ∙ ap (λ p. shell_words bare p s)
        (append_assoc (part ++ var.name) (b'=' ∷ [])
            (if has_byte b'\'' var.value then without_newlines var.value else var.value)
          ∙ append_assoc part var.name
              (b'=' ∷ (if has_byte b'\'' var.value then without_newlines var.value else var.value)))

-- A text is read as words and the beginning of one.
abbrev Reads : Bytes → List Bytes → Bytes → Type 0
Reads t ws last =
    (s : Bytes) → shell_words bare [] (t ++ s) ≡ (shell_words bare last s >>= λ r. some (ws ++ r))

bind_map :
    (o : Option (List Bytes)) (last : Bytes) (ws : List Bytes)
    → ((o >>= λ r. some (last ∷ r)) >>= λ r. some (ws ++ r))
      ≡ (o >>= λ r. some ((ws ++ last ∷ []) ++ r))
bind_map none last ws = refl
bind_map (some r) last ws = ap (λ x. some x) (sym (append_assoc ws (last ∷ []) r))

bind_same : (o : Option (List Bytes)) → o ≡ (o >>= λ r. some ([] ++ r))
bind_same none = refl
bind_same (some r) = refl

-- A flag behind others.
Reads-flag :
    (out e : Estring) (ws : List Bytes) (last : Bytes) (var : Variable)
    → IsReadable var
    → Reads (text out) ws last
    → Grows out (flag_text false var) e
    → Reads (text e) (ws ++ last ∷ []) (word var)
Reads-flag out e ws last var plain reads (t, l) s =
    let flag = var.name ++ b'=' ∷ value_text var.value in
    ap (λ x. shell_words bare [] (x ++ s)) t
    ∙ ap (shell_words bare []) (append_assoc (text out) (b' ' ∷ flag) s)
    ∙ reads (b' ' ∷ (flag ++ s))
    ∙ ap (λ o. o >>= λ r. some (ws ++ r)) (read_space last (flag ++ s))
    ∙ bind_map (shell_words bare [] (flag ++ s)) last ws
    ∙ ap (λ o. o >>= λ r. some ((ws ++ last ∷ []) ++ r)) (read-flag [] s var plain)

append_flags-Reads :
    (vars : List Variable) (out out' : Estring) (ws : List Bytes) (last : Bytes)
    → All IsReadable vars
    → 0 < out.length_
    → Reads (text out) ws last
    → append_flags vars out ≡ some out'
    → shell_words bare [] (text out') ≡ some ((ws ++ last ∷ []) ++ words vars)
unfolding append_flags words
append_flags-Reads [] out out' ws last plain pos reads h =
    let same : out ≡ out' = cc h in
    ap (λ x. shell_words bare [] (text x)) (sym same)
    ∙ ap (shell_words bare []) (sym (append-nil (text out)))
    ∙ reads []
    ∙ (unfold shell_words in ap (λ x. some x) (sym (append-nil (ws ++ last ∷ []))))
append_flags-Reads (var ∷ vars) out out' ws last (p, plain) pos reads h =
    elim (Bool-cases (is_make var.type_)) [
      | inl y ↦
          let (e, q, h1) = bind-some (append_flag out var) _ out' (rw y at h) in
          let grown = append_flag-Grows out e var q in
          let grown' : Grows out (flag_text false var) e =
            subst (λ b. Grows out (flag_text (not b) var) e) (lt→ltb 0 out.length_ pos) grown in
          rw y (
            append_flags-Reads vars e out' (ws ++ last ∷ []) (word var) plain
              (omega (arith, grown'.1, pos)) (Reads-flag out e ws last var p reads grown') h1
            ∙ ap (λ x. some x) (append_assoc (ws ++ last ∷ []) (word var ∷ []) (words vars)))
      | inr n ↦ rw n (append_flags-Reads vars out out' ws last plain pos reads (rw n at h))
    ]

append_flags-words :
    (vars : List Variable) (out' : Estring) (w : Bytes) (ws : List Bytes)
    → All IsReadable vars
    → append_flags vars init ≡ some out'
    → words vars ≡ w ∷ ws
    → shell_words bare [] (text out') ≡ some (words vars)
unfolding append_flags words
append_flags-words [] out' w ws plain h e = absurd (cc)
append_flags-words (var ∷ vars) out' w ws (p, plain) h e = elim (Bool-cases (is_make var.type_)) [
  | inl y ↦
      let (e1, q, h1) = bind-some (append_flag init var) _ out' (rw y at h) in
      let grown = append_flag-Grows init e1 var q in
      let flag = var.name ++ b'=' ∷ value_text var.value in
      rw y (
        append_flags-Reads vars e1 out' [] (word var) plain
          (omega (arith, grown.1, length-append var.name (b'=' ∷ value_text var.value)))
          (λ s.
            ap (λ x. shell_words bare [] (x ++ s)) grown.0
            ∙ read-flag [] s var p
            ∙ bind_same (shell_words bare (word var) s))
          h1)
  | inr n ↦ rw n (append_flags-words vars out' w ws plain (rw n at h) (rw n at e))
]

abbrev given : Option (Option Bytes) → Bytes
given none = []
given (some d) = text_of d

-- For variables whose names have nothing special to a POSIX shell, and whose values have no opening
-- bracket and no tilde if they have a single quote, the shell reads `var_make_flags`, where there is a variable for make, as one word
-- for each of those variables, in order: the name, an equals sign and the value. Only a value with a single quote loses its newlines.
pub prefs_set_var_make_flags-words :
    (vars : List Variable) (flags : Option Bytes) (w : Bytes) (ws : List Bytes)
    → All IsReadable vars
    → prefs_set_var_make_flags vars ≡ some flags
    → words vars ≡ w ∷ ws
    → shell_words bare [] (text_of flags) ≡ some (words vars)
unfolding prefs_set_var_make_flags
prefs_set_var_make_flags-words vars flags w ws plain h e =
    let (out, p, h1) = bind-some (append_flags vars init) _ flags h in
    let same : some out.data_ ≡ some flags = h1 in
    ap (λ o. shell_words bare [] (given o)) (sym same) ∙ append_flags-words vars out w ws plain p e
