-- ===== src/Makes/Targets/Saved.antt =====
-- gmake.c, pmake.c and sunmake.c: the first lines of the output, which are saved.
use maketool.Common.{
  ◌+◌, ◌≤◌, ◌≡◌, refl, some, List, [], ◌∷◌, arith, leb, Bytes, length, All, inl, inr, Bool-cases,
}
use maketool.Estring.Bounds.{IsValid, Fits-room, append_chars_lem, append_char_lem}
use maketool.Makes.Targets.{
  FirstLines, TargetList, ListTargets, save_line, save_and_scan, input_all, scan_all,
}

save_line_total :
    (buf : Bytes) (first : FirstLines)
    → IsValid first.error_buf
    → length buf ≤ 1023
    → (first' : FirstLines) × (save_line buf first ≡ some first') × IsValid first'.error_buf
unfolding save_line
save_line_total buf first v short = elim (Bool-cases (leb (first.nlines + 1) 16)) [
  | inl y ↦
      let old = first.error_buf in
      let (e, p, t, v1) =
        append_chars_lem old buf v
          (omega (arith, Fits-room old.data_ old.length_ old.available v)) in
      let (e', q, t', v2) = append_char_lem e b'\n' v1 in
      (record { nlines = first.nlines + 1; error_buf = e' }, rw (y, p, q) refl, v2)
  | inr n ↦ (record first { nlines = first.nlines + 1 }, rw n refl, v)
]

-- Lines of at most 1023 bytes are saved without a fault, and what is found in them does not depend
-- on what is saved.
pub input_all_lem :
    (scan : Bytes → TargetList → TargetList) (bufs : List Bytes) (ltt : ListTargets)
    → IsValid ltt.first.error_buf
    → All (λ buf. length buf ≤ 1023) bufs
    → (first : FirstLines) × (input_all (save_and_scan scan) bufs ltt
        ≡ some (record { first = first; list = scan_all scan bufs ltt.list }))
unfolding save_and_scan
input_all_lem scan [] ltt v short = (ltt.first, refl)
input_all_lem scan (buf ∷ bufs) ltt v (h, hs) =
    let (first, p, v') = save_line_total buf ltt.first v h in
    let (last, q) =
      input_all_lem scan bufs (record { first = first; list = scan buf ltt.list }) v' hs in
    (last, rw p q)
