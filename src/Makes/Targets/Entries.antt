-- ===== src/Makes/Targets/Entries.antt =====
-- gmake.c and pmake.c: the files of the database which gmake prints.
use maketool.Common.{
  ℕ, ◌≡◌, refl, sym, Bool, true, false, not, ◌&&◌, none, some, List, [], ◌∷◌, ◌++◌, arith,
  append_assoc, append-nil, if◌then◌else◌, Bytes, codes, has_byte, starts_with, strstr, All, inl,
  inr, Bool-cases,
}
use maketool.Makes.Targets.{
  TargetList, filter_target, span, blanks, nonempty, gmake_target_re, add_target, match_line,
  gmake_scan, scan_all,
}

-- A file of the database: a rule, perhaps marked as no target, and what is printed behind it.
pub record Entry : Type 0 where
  pub is_marked : Bool
  pub name : Bytes
  pub dependencies : Bytes
  pub remarks : List Bytes

-- What gmake_scan finds in a line, apart from a name.
abbrev is_special : Bytes → Bool
is_special buf =
    if starts_with (codes "# Files") buf
    then true
    else if starts_with (codes "# Not a target:") buf
    then true
    else if starts_with (codes "# VPATH Search Paths") buf
    then true
    else strstr buf (codes "*** No rule to make target")

abbrev rule_of : Entry → Bytes
rule_of e = e.name ++ b':' ∷ e.dependencies

abbrev print_entry : Entry → List Bytes
print_entry e = (if e.is_marked then codes "# Not a target:" ∷ [] else []) ++ rule_of e ∷ e.remarks

abbrev pub print_entries : List Entry → List Bytes
print_entries [] = []
print_entries (e ∷ es) = print_entry e ++ print_entries es

-- The output of gmake: other things, the files and other things.
abbrev pub print_database : List Bytes → List Entry → List Bytes → List Bytes
print_database front es back =
    front ++ (codes "# Files" ∷ (print_entries es ++ (codes "# VPATH Search Paths" ∷ back)))

-- The names of the files that are targets and that filter_target lets pass.
abbrev pub names_of : List Entry → List Bytes
names_of [] = []
names_of (e ∷ es) =
    if e.is_marked
    then names_of es
    else if filter_target e.name
    then e.name ∷ names_of es
    else names_of es

-- A name has none of the bytes that end it, and a rule is not taken for something else; remarks are
-- neither special nor rules.
pub record IsEntry (e : Entry) : Type 0 where
  pub name_nonempty : nonempty e.name ≡ true
  pub name_plain : All (λ c. has_byte c (codes "#: \t") ≡ false) e.name
  pub rule_plain : is_special (rule_of e) ≡ false
  pub remarks_plain : All (λ r. (is_special r ≡ false) × (gmake_target_re r ≡ none)) e.remarks

-- Between two lines of the files, and in front of them.
abbrev pub Reading : List Bytes → Bool → TargetList → Type 0
Reading ts t ltt = (ltt.targets ≡ ts) × (ltt.is_file ≡ true) × (ltt.is_target ≡ t)

abbrev pub Waiting : List Bytes → TargetList → Type 0
Waiting ts ltt = (ltt.targets ≡ ts) × (ltt.is_file ≡ false)

pub scan_all-append :
    (input : Bytes → TargetList → TargetList) (xs ys : List Bytes) (ltt : TargetList)
    → scan_all input (xs ++ ys) ltt ≡ scan_all input ys (scan_all input xs ltt)
scan_all-append input [] ys ltt = refl
scan_all-append input (x ∷ xs) ys ltt = scan_all-append input xs ys (input x ltt)

span_lem :
    (stops name rest : Bytes) (c : ℕ)
    → All (λ d. has_byte d stops ≡ false) name
    → has_byte c stops ≡ true
    → span stops (name ++ c ∷ rest) ≡ (name, c ∷ rest)
unfolding span
span_lem stops [] rest c plain stop = rw stop refl
span_lem stops (d ∷ name) rest c (p, ps) stop = rw p (rw (span_lem stops name rest c ps stop) refl)

gmake_target_re-rule_of : (e : Entry) → IsEntry e → gmake_target_re (rule_of e) ≡ some e.name
unfolding gmake_target_re blanks
gmake_target_re-rule_of e is =
    rw (span_lem (codes "#: \t") e.name e.dependencies b':' is.name_plain (unfold has_byte in refl))
      (rw is.name_nonempty (rw (append-nil e.name) (unfold has_byte in refl)))

plain_line :
    (buf : Bytes) (ltt : TargetList)
    → is_special buf ≡ false
    → gmake_scan buf ltt ≡ match_line (gmake_target_re buf) ltt
unfolding gmake_scan
plain_line buf ltt plain = ground arith

remark-Reading :
    (ts : List Bytes) (t : Bool) (r : Bytes) (ltt : TargetList)
    → is_special r ≡ false
    → gmake_target_re r ≡ none
    → Reading ts t ltt
    → Reading ts t (gmake_scan r ltt)
remark-Reading ts t r ltt plain unmatched reading =
    rw (plain_line r ltt plain, unmatched) (unfold match_line in reading)

remarks-Reading :
    (ts : List Bytes) (t : Bool) (rs : List Bytes) (ltt : TargetList)
    → All (λ r. (is_special r ≡ false) × (gmake_target_re r ≡ none)) rs
    → Reading ts t ltt
    → Reading ts t (scan_all gmake_scan rs ltt)
remarks-Reading ts t [] ltt plain reading = reading
remarks-Reading ts t (r ∷ rs) ltt (p, ps) reading =
    remarks-Reading ts t rs (gmake_scan r ltt) ps (remark-Reading ts t r ltt p.0 p.1 reading)

-- What a rule adds.
abbrev added : Bool → Bytes → List Bytes → List Bytes
added t name ts = if t && filter_target name then ts ++ name ∷ [] else ts

rule-Reading :
    (ts : List Bytes) (t : Bool) (e : Entry) (ltt : TargetList)
    → IsEntry e
    → Reading ts t ltt
    → Reading (added t e.name ts) true (gmake_scan (rule_of e) ltt)
rule-Reading ts t e ltt is reading =
    rw (plain_line (rule_of e) ltt is.rule_plain, gmake_target_re-rule_of e is)
      (unfold match_line add_target in ground (arith, reading.0, reading.1, reading.2))

marker-Reading :
    (ts : List Bytes) (t : Bool) (ltt : TargetList)
    → Reading ts t ltt
    → Reading ts false (gmake_scan (codes "# Not a target:") ltt)
unfolding gmake_scan starts_with
marker-Reading ts t ltt (a, b, c) = (a, b, refl)

-- What an entry adds.
abbrev with_entry : Entry → List Bytes → List Bytes
with_entry e ts = added (not e.is_marked) e.name ts

entry-Reading :
    (ts : List Bytes) (e : Entry) (ltt : TargetList)
    → IsEntry e
    → Reading ts true ltt
    → Reading (with_entry e ts) true (scan_all gmake_scan (print_entry e) ltt)
entry-Reading ts e ltt is reading = elim (Bool-cases e.is_marked) [
  | inl m ↦ rw m (
      remarks-Reading ts true e.remarks _ is.remarks_plain
        (rule-Reading ts false e _ is (marker-Reading ts true ltt reading)))
  | inr m ↦ rw m (
      remarks-Reading (added true e.name ts) true e.remarks _ is.remarks_plain
        (rule-Reading ts true e ltt is reading))
]

with_entry-names_of :
    (e : Entry) (es : List Entry) (ts : List Bytes)
    → with_entry e ts ++ names_of es ≡ ts ++ names_of (e ∷ es)
with_entry-names_of e es ts = ground (arith, append_assoc ts (e.name ∷ []) (names_of es))

pub entries-Reading :
    (es : List Entry) (ts : List Bytes) (ltt : TargetList)
    → All IsEntry es
    → Reading ts true ltt
    → Reading (ts ++ names_of es) true (scan_all gmake_scan (print_entries es) ltt)
entries-Reading [] ts ltt is reading = rw (append-nil ts) reading
entries-Reading (e ∷ es) ts ltt (is, iss) reading =
    rw (scan_all-append gmake_scan (print_entry e) (print_entries es) ltt) (
      rw (sym (with_entry-names_of e es ts))
        (entries-Reading es (with_entry e ts) _ iss (entry-Reading ts e ltt is reading)))
