-- ===== src/Ini/Lookup.antt =====
-- What `GetIniKeyString` returns for a section and a key that the file has.
use sysmonitor.Base.{
  ℕ, zero, suc, ◌≤◌, ◌<◌, ◌≡◌, refl, ap, ◌∙◌, true, false, List, [], ◌∷◌, ◌++◌, some, arith, length,
  append_assoc, append-nil, length-append, length-drop, length-take, take, drop,
}
use sysmonitor.Base.Text.{Bytes, text, IsText, Lacks, text-append, contains}
use sysmonitor.Ini.{on_value, copy_value, tag, commented, value, stop, returned, get_ini_key_string}
use sysmonitor.Ini.Lines.{AllLines, unlines}
use sysmonitor.Port.Write.{write-fits}
use sysmonitor.Ini.Section.{
  Skips, section_of, IsText-front, IsText-back, AllLines-back, tagged, get_ini_key_string-entry,
}

IsText-take : (n : ℕ) (s : Bytes) → IsText s → IsText (take n s)
IsText-take zero s h = tt
IsText-take (suc n) [] h = tt
IsText-take (suc n) (x ∷ s) h = (h.0, IsText-take n s h.1)

IsText-drop : (n : ℕ) (s : Bytes) → IsText s → IsText (drop n s)
IsText-drop zero s h = h
IsText-drop (suc n) [] h = tt
IsText-drop (suc n) (x ∷ s) h = IsText-drop n s h.1

-- The value of an entry's line, in a file whose lines are all well formed.
value-IsText :
    (title junk name v : Bytes) (middle after : List Bytes)
    → AllLines (section_of title junk name v middle after)
    → IsText v × (length v < 1024)
value-IsText title junk name v middle after (h, hs) =
    let (t, n, b) = (AllLines-back middle _ hs).0 in
    ((IsText-back name (b'=' ∷ v) t).1, omega (arith, b, length-append name (b'=' ∷ v)))

tagged-length :
    (title junk : Bytes) (tmp : List ℕ)
    → length (tag title ++ junk) < 1024
    → length tmp ≡ 1024
    → length ((tag title ++ 0 ∷ []) ++ drop (length (tag title ++ 0 ∷ [])) tmp) ≡ 1024
tagged-length title junk tmp h size =
    let a = length-append (tag title ++ 0 ∷ []) (drop (length (tag title ++ 0 ∷ [])) tmp) in
    omega (
      arith,
      a,
      length-append (tag title) (0 ∷ []),
      length-append (tag title) junk,
      length-drop (length (tag title ++ 0 ∷ [])) tmp,
    )

-- Under WIN32, in a section that starts the file, the value is what stands behind the `=` of the
-- first line that names the key, if the lines are texts that fit the line buffer.
pub get_ini_key_string-finds :
    (title key junk name v tail : Bytes) (middle after : List Bytes) (tmp : List ℕ)
    → AllLines (section_of title junk name v middle after)
    → Lacks 10 tail
    → length tail < 1024
    → Skips key middle
    → Lacks b'=' name
    → contains (name ++ b'=' ∷ v) key ≡ true
    → commented (name ++ b'=' ∷ v) ≡ false
    → length tmp ≡ 1024
    → (tmp' : List ℕ) × (get_ini_key_string true title key
          (some (unlines (section_of title junk name v middle after) ++ tail))
          tmp
        ≡ some (v, tmp'))
unfolding on_value copy_value tagged returned text
get_ini_key_string-finds title key junk name v tail middle after tmp lines t tl sk n c k size =
    let (is_text, short) = value-IsText title junk name v middle after lines in
    let old = drop (length (tag title ++ 0 ∷ [])) tmp in
    let buf = (tagged true title key old).tmp in
    let room : length (v ++ 0 ∷ []) ≤ length buf =
      omega (arith, tagged-length title junk tmp lines.0.2 size, length-append v (0 ∷ [])) in
    let put = write-fits buf (v ++ 0 ∷ []) room in
    let out = (v ++ 0 ∷ []) ++ drop (length (v ++ 0 ∷ [])) buf in
    let found : on_value (copy_value true v buf) ≡ stop (value out) = ap on_value put in
    let shown : text out ≡ v =
      ap text (append_assoc v (0 ∷ []) _)
      ∙ text-append v (0 ∷ drop (length (v ++ 0 ∷ [])) buf) is_text
      ∙ append-nil v in
    (
      out,
      get_ini_key_string-entry true title key junk name v tail middle after tmp (value out) lines t
            tl sk n c k size found
          ∙ ap (λ s. some (s, out)) shown,
    )

drop-append_le : (n : ℕ) (xs ys : Bytes) → n ≤ length xs → drop n (xs ++ ys) ≡ drop n xs ++ ys
drop-append_le zero xs ys h = refl
drop-append_le (suc n) [] ys h = absurd (omega arith)
drop-append_le (suc n) (x ∷ xs) ys h = drop-append_le n xs ys (omega arith)

-- Without WIN32, the same search returns the value without its last byte, followed by what the
-- section's tag has at and behind that position, where the value is no longer than the tag.
pub get_ini_key_string-garbled :
    (title key junk name u tail : Bytes) (x : ℕ) (middle after : List Bytes) (tmp : List ℕ)
    → AllLines (section_of title junk name (x ∷ u) middle after)
    → Lacks 10 tail
    → length tail < 1024
    → Skips key middle
    → Lacks b'=' name
    → contains (name ++ b'=' ∷ x ∷ u) key ≡ true
    → commented (name ++ b'=' ∷ x ∷ u) ≡ false
    → length tmp ≡ 1024
    → length u ≤ length (tag title)
    → (tmp' : List ℕ) × (get_ini_key_string false title key
          (some (unlines (section_of title junk name (x ∷ u) middle after) ++ tail))
          tmp
        ≡ some (take (length u) (x ∷ u) ++ drop (length u) (tag title), tmp'))
unfolding on_value copy_value tagged returned text
get_ini_key_string-garbled title key junk name u tail x middle after tmp lines t tl sk n c k size
      le =
    let (is_text, short) = value-IsText title junk name (x ∷ u) middle after lines in
    let old = drop (length (tag title ++ 0 ∷ [])) tmp in
    let buf = (tagged false title key old).tmp in
    let part = take (length u) (x ∷ u) in
    let part_size : length part ≡ length u = omega (arith, length-take (length u) (x ∷ u)) in
    let put =
      write-fits buf part
        (omega (arith, part_size, short, tagged-length title junk tmp lines.0.2 size)) in
    let out = part ++ drop (length u) buf in
    let found : on_value (copy_value false (x ∷ u) buf) ≡ stop (value out) =
      ap on_value (put ∙ ap (λ n. some (part ++ drop n buf)) part_size) in
    let rest : drop (length u) buf ≡ drop (length u) (tag title) ++ 0 ∷ old =
      ap (drop (length u)) (append_assoc (tag title) (0 ∷ []) old)
      ∙ drop-append_le (length u) (tag title) (0 ∷ old) le in
    let tag_text = IsText-drop (length u) (tag title) (IsText-front (tag title) junk lines.0.0) in
    let behind : text (drop (length u) buf) ≡ drop (length u) (tag title) =
      ap text rest ∙ text-append (drop (length u) (tag title)) (0 ∷ old) tag_text ∙ append-nil _ in
    let shown : text out ≡ part ++ drop (length u) (tag title) =
      text-append part (drop (length u) buf) (IsText-take (length u) (x ∷ u) is_text)
      ∙ ap (◌++◌ part) behind in
    (
      out,
      get_ini_key_string-entry false title key junk name (x ∷ u) tail middle after tmp (value out)
            lines t tl sk n c k size found
          ∙ ap (λ s. some (s, out)) shown,
    )
