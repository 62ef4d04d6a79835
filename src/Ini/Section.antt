-- ===== src/Ini/Section.antt =====
-- The search over the lines of one section, up to the entry of the key.
use sysmonitor.Base.{
  ℕ, ◌+◌, ◌<◌, ◌≡◌, inl, inr, refl, sym, ap, ◌∙◌, Bool, true, false, List, [], ◌∷◌, ◌++◌, some,
  arith, length, append_assoc, length-append, drop, drop-append_at, Option-cases,
}
use sysmonitor.Base.Text.{Bytes, IsText, Lacks, strchr, strchr-append, strncmp_eq, contains}
use sysmonitor.Port.Write.{write-front, write-fits}
use sysmonitor.Ini.{
  Scan, Search, on_line, on_value, on_header, on_entry, copy_value, tag, commented, stop, more,
  returned, get_ini_key_string,
}
use sysmonitor.Ini.Lines.{AllLines, unlines, search_lines, scan-search_lines}

-- No line names the key.
abbrev pub Skips : Bytes → List Bytes → Type 0
Skips key [] = Unit {0}
Skips key (s ∷ ls) = (contains s key ≡ false) × Skips key ls

strncmp_eq-front : (s t : Bytes) → strncmp_eq s (s ++ t) (length s) ≡ true
unfolding strncmp_eq
strncmp_eq-front [] t = refl
strncmp_eq-front (x ∷ s) t = ground (arith, strncmp_eq-front s t)

pub IsText-front : (s t : Bytes) → IsText (s ++ t) → IsText s
IsText-front [] t h = tt
IsText-front (x ∷ s) t h = (h.0, IsText-front s t h.1)

pub IsText-back : (s t : Bytes) → IsText (s ++ t) → IsText t
IsText-back [] t h = h
IsText-back (x ∷ s) t h = IsText-back s t h.1

pub AllLines-back : (ls ls' : List Bytes) → AllLines (ls ++ ls') → AllLines ls'
AllLines-back [] ls' h = h
AllLines-back (s ∷ ls) ls' h = AllLines-back ls ls' h.1

-- The section's line, lines without the key, and the entry.
abbrev pub section_of : Bytes → Bytes → Bytes → Bytes → List Bytes → List Bytes → List Bytes
section_of title junk name v middle after =
    (tag title ++ junk) ∷ middle ++ (name ++ b'=' ∷ v) ∷ after

module _ (win32 : Bool) (title key : Bytes) where
  -- `tmpstr` with the section's tag in front of what it held.
  unfoldable pub tagged : List ℕ → Scan
  tagged old = record { flag = true; tmp = (tag title ++ 0 ∷ []) ++ old }

  on_line-tag :
      (junk : Bytes) (tmp : List ℕ)
      → length (tag title) < length tmp
      → on_line win32 title key (tag title ++ junk) (record { flag = false; tmp = tmp })
        ≡ more (tagged (drop (length (tag title ++ 0 ∷ [])) tmp))
  unfolding on_line on_header tagged
  on_line-tag junk tmp h =
      let put =
        write-fits tmp (tag title ++ 0 ∷ []) (omega (arith, length-append (tag title) (0 ∷ []))) in
      let here = strncmp_eq-front (tag title) junk in
      ground (arith, put, here, Option-cases (strchr (tag title ++ junk) b'='))

  on_line-skip :
      (s : Bytes) (old : List ℕ)
      → contains s key ≡ false
      → on_line win32 title key s (tagged old) ≡ more (tagged old)
  unfolding on_line on_header on_entry tagged
  on_line-skip s old h =
      let put = write-front (tag title ++ 0 ∷ []) old in
      elim (Option-cases (strchr s b'=')) [
        | inl n ↦ ground (arith, n, put)
        | inr (at, e) ↦ ground (arith, e, h)
      ]

  on_line-entry :
      (name v : Bytes) (old : List ℕ)
      → Lacks b'=' name
      → contains (name ++ b'=' ∷ v) key ≡ true
      → commented (name ++ b'=' ∷ v) ≡ false
      → on_line win32 title key (name ++ b'=' ∷ v) (tagged old)
        ≡ on_value (copy_value win32 v (tagged old).tmp)
  unfolding on_line on_entry tagged
  on_line-entry name v old n c k =
      let at = strchr-append name v b'=' n in
      let size = length-append name (b'=' ∷ []) in
      let rest : drop (length name + 1) (name ++ b'=' ∷ v) ≡ v =
        ap (drop (length name + 1)) (sym (append_assoc name (b'=' ∷ []) v))
        ∙ drop-append_at (name ++ b'=' ∷ []) v (length name + 1) size in
      ground (arith, at, rest, c, k)

  search_lines-skip :
      (middle ls : List Bytes) (old : List ℕ)
      → Skips key middle
      → search_lines win32 title key (middle ++ ls) (tagged old)
        ≡ search_lines win32 title key ls (tagged old)
  unfolding search_lines
  search_lines-skip [] ls old h = refl
  search_lines-skip (s ∷ middle) ls old (h, hs) =
      let e = on_line-skip s old h in
      let go : search_lines win32 title key ((s ∷ middle) ++ ls) (tagged old)
          ≡ search_lines win32 title key (middle ++ ls) (tagged old) =
        ground (arith, e) in
      go ∙ search_lines-skip middle ls old hs

  pub get_ini_key_string-entry :
      (junk name v tail : Bytes) (middle after : List Bytes) (tmp : List ℕ) (r : Search)
      → AllLines (section_of title junk name v middle after)
      → Lacks 10 tail
      → length tail < 1024
      → Skips key middle
      → Lacks b'=' name
      → contains (name ++ b'=' ∷ v) key ≡ true
      → commented (name ++ b'=' ∷ v) ≡ false
      → length tmp ≡ 1024
      → on_value (copy_value win32 v (tagged (drop (length (tag title ++ 0 ∷ [])) tmp)).tmp)
        ≡ stop r
      → get_ini_key_string win32 title key
          (some (unlines (section_of title junk name v middle after) ++ tail))
          tmp
        ≡ returned r
  unfolding get_ini_key_string search_lines
  get_ini_key_string-entry junk name v tail middle after tmp r lines t tl sk n c k size e =
      let st0 : Scan = record { flag = false; tmp = tmp } in
      let old = drop (length (tag title ++ 0 ∷ [])) tmp in
      let entry = name ++ b'=' ∷ v in
      let fits : length (tag title) < length tmp =
        omega (arith, lines.0.2, length-append (tag title) junk, size) in
      let opened = on_line-tag junk tmp fits in
      let read = on_line-entry name v old n c k ∙ e in
      let first : search_lines win32 title key (section_of title junk name v middle after) st0
          ≡ search_lines win32 title key (middle ++ entry ∷ after) (tagged old) =
        ground (arith, opened) in
      let last : search_lines win32 title key (entry ∷ after) (tagged old) ≡ r =
        ground (arith, read) in
      let all =
        scan-search_lines win32 title key (section_of title junk name v middle after) tail st0 lines
          t tl in
      ap returned (all ∙ first ∙ search_lines-skip middle (entry ∷ after) old sk ∙ last)
