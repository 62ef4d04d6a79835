-- ===== src/Ini/Lines.antt =====
-- The byte loop reads the file line by line, and stops at what is behind the last newline.
use sysmonitor.Base.{
  ◌⊎◌, inl, inr, ◌+◌, ◌<◌, ◌≡◌, refl, sym, ap, ◌∙◌, Bool, false, List, [], ◌∷◌, ◌++◌, arith, ◌==◌,
  length, leb, append_assoc, append-nil, length-append,
}
use sysmonitor.Base.Text.{Bytes, text, IsText, Lacks}
use sysmonitor.Ini.{line_size, Scan, Search, Step, on_line, scan, missing, stop, more}

-- A line that the loop's buffer holds with its newline.
abbrev pub IsLine : Bytes → Type 0
IsLine s = IsText s × Lacks 10 s × (length s < line_size)

abbrev pub AllLines : List Bytes → Type 0
AllLines [] = Unit {0}
AllLines (s ∷ ls) = IsLine s × AllLines ls

abbrev pub unlines : List Bytes → Bytes
unlines [] = []
unlines (s ∷ ls) = s ++ 10 ∷ unlines ls

-- The search, line by line.
unfoldable pub search_lines : Bool → Bytes → Bytes → List Bytes → Scan → Search
unfolding on_line
search_lines win32 title key [] st = missing st.tmp
search_lines win32 title key (s ∷ ls) st = elim (on_line win32 title key s st) [
  | stop r ↦ r
  | more st' ↦ search_lines win32 title key ls st'
]

module _ (win32 : Bool) (title key : Bytes) where
  -- Bytes without a newline go to the buffer.
  scan-append :
      (s rest line : Bytes) (st : Scan)
      → Lacks 10 s
      → length line + length s < line_size
      → scan win32 title key (s ++ rest) line st ≡ scan win32 title key rest (line ++ s) st
  unfolding scan
  scan-append [] rest line st h b = ap (λ l. scan win32 title key rest l st) (sym (append-nil line))
  scan-append (c ∷ s) rest line st (n, h) b =
      let size : leb line_size (length line) ≡ false = ground arith in
      let other : (c == 10) ≡ false = ground (arith, n) in
      let next =
        scan-append s rest (line ++ c ∷ []) st h (omega (arith, length-append line (c ∷ []))) in
      let e : scan win32 title key (c ∷ s ++ rest) line st
          ≡ scan win32 title key (s ++ rest) (line ++ c ∷ []) st =
        ground (arith, size, other) in
      e ∙ next ∙ ap (λ l. scan win32 title key rest l st) (append_assoc line (c ∷ []) s)

  text_self : (s : Bytes) → IsText s → text s ≡ s
  unfolding text
  text_self [] h = refl
  text_self (x ∷ s) h = ground (arith, h.0, text_self s h.1)

  scan-stop :
      (s rest : Bytes) (st : Scan) (r : Search)
      → IsLine s
      → on_line win32 title key s st ≡ stop r
      → scan win32 title key (10 ∷ rest) s st ≡ r
  unfolding scan
  scan-stop s rest st r (t, h, b) e =
      let size : leb line_size (length s) ≡ false = ground arith in
      let same = text_self s t in ground (arith, size, same, e)

  scan-more :
      (s rest : Bytes) (st st' : Scan)
      → IsLine s
      → on_line win32 title key s st ≡ more st'
      → scan win32 title key (10 ∷ rest) s st ≡ scan win32 title key rest [] st'
  unfolding scan
  scan-more s rest st st' (t, h, b) e =
      let size : leb line_size (length s) ≡ false = ground arith in
      let same = text_self s t in ground (arith, size, same, e)

  Step-cases : (o : Step) → ((r : Search) × (o ≡ stop r)) ⊎ ((st : Scan) × (o ≡ more st))
  Step-cases (stop r) = inl (r, refl)
  Step-cases (more st) = inr (st, refl)

  -- On a file of lines that fit the line buffer, the byte loop is the search line by line; bytes
  -- behind the last newline are never looked at.
  pub scan-search_lines :
      (ls : List Bytes) (tail : Bytes) (st : Scan)
      → AllLines ls
      → Lacks 10 tail
      → length tail < line_size
      → scan win32 title key (unlines ls ++ tail) [] st ≡ search_lines win32 title key ls st
  unfolding search_lines scan
  scan-search_lines [] tail st h n b =
      ap (λ t. scan win32 title key t [] st) (sym (append-nil tail))
      ∙ scan-append tail [] [] st n (omega arith)
      ∙ at_end tail
    where
      at_end : (line : Bytes) → scan win32 title key [] line st ≡ missing st.tmp
      at_end line = refl
  scan-search_lines (s ∷ ls) tail st (h, hs) n b =
      let rest = unlines ls ++ tail in
      let assoc = ap (λ t. scan win32 title key t [] st) (append_assoc s (10 ∷ unlines ls) tail) in
      let there = assoc ∙ scan-append s (10 ∷ rest) [] st h.1 (omega (arith, h.2)) in
      elim (Step-cases (on_line win32 title key s st)) [
        | inl (r, e) ↦ there ∙ scan-stop s rest st r h e ∙ ground (arith, e)
        | inr (st', e) ↦
            there
            ∙ scan-more s rest st st' h e
            ∙ scan-search_lines ls tail st' hs n b
            ∙ ground (arith, e)
      ]
