-- ===== src/Mysql/Record/Cursor.antt =====
-- What the record set gives, for a library whose results are lists of rows with a position.
use sysmonitor.Base.{
  ℕ, zero, suc, ◌+◌, ◌%◌, ◌^◌, ◌<◌, ◌≡◌, refl, ap, ◌∙◌, List, [], ◌∷◌, Option, none, some, arith,
  length, drop, get_elem?, get_elem?-length,
}
use sysmonitor.Rc.{rc_s_cursor_end}
use sysmonitor.Mysql.Api.{MysqlApi, Row, CursorLaw}
use sysmonitor.Mysql.Record.{
  Record, RecordSet, set_mysql_res, next, last, fetched, cursor_code, on_res, get_record, rows_read,
}

pub get_elem?-drop :
    (R : List Row) (k : ℕ) (x : Row) (xs : List Row)
    → drop k R ≡ x ∷ xs
    → (get_elem? R k ≡ some x) × (drop (suc k) R ≡ xs) × (k < length R)
get_elem?-drop [] zero x xs h = cc
get_elem?-drop [] (suc k) x xs h = cc
get_elem?-drop (y ∷ R) zero x xs h = (cc, cc, omega arith)
get_elem?-drop (y ∷ R) (suc k) x xs h =
    let (a, b, c) = get_elem?-drop R k x xs h in (a, b, omega arith)

module _ {M : MysqlApi} (L : CursorLaw M) where
  -- The set stands on row `k` of the rows `R`.
  pub record At (R : List Row) (k : ℕ) (s : RecordSet M) : Type 0 where
    pub cursor : M.Res
    pub res_is : s.res ≡ some cursor
    pub rows_are : L.rows cursor ≡ R
    pub position_is : k < length R → L.position cursor ≡ suc k
    pub row_is : s.row ≡ get_elem? R k

  pub fetched-At :
      (s : RecordSet M) (r : M.Res) (n k : ℕ) (R : List Row)
      → L.rows r ≡ R
      → L.position r ≡ k
      → At R k (fetched s (M.fetch_row r) n).1
  unfolding fetched
  fetched-At s r n k R e p = record {
    cursor = (M.fetch_row r).0;
    res_is = refl;
    rows_are = L.fetch_row-rows r ∙ e;
    position_is = λ h. L.fetch_row-position r (rw (e, p) h) ∙ ap suc p;
    row_is = rw (L.fetch_row-get r, e, p);
  }

  pub get_record-At :
      (s : RecordSet M) (R : List Row) (k : ℕ) (x : Row)
      → At R k s
      → get_elem? R k ≡ some x
      → (rec : Record) × (s' : RecordSet M) × (get_record s ≡ some (some rec, s'))
        × (rec.row ≡ some x)
        × At R k s'
        × (rec.field_count ≡ s.field_count)
        × (s'.field_count ≡ s.field_count)
  unfolding get_record
  get_record-At s R k x a e =
      let here : s.row ≡ some x = a.row_is ∙ e in
      let ls : Option (List ℕ) = some (M.fetch_lengths a.cursor) in
      let rec : Record = record { row = s.row; field_count = s.field_count; lengths = ls } in
      let s' : RecordSet M = record s { lengths = ls; rec = rec } in
      (
        rec,
        s',
        ground (arith, a.res_is, here),
        here,
        record {
          cursor = a.cursor;
          res_is = a.res_is;
          rows_are = a.rows_are;
          position_is = a.position_is;
          row_is = a.row_is;
        },
        refl,
        refl,
      )

  pub next-At :
      (s : RecordSet M) (R : List Row) (k : ℕ)
      → At R k s
      → k < length R
      → (s' : RecordSet M) × (next s ≡ some (cursor_code (get_elem? R (suc k)), s'))
        × At R (suc k) s'
        × (s'.field_count ≡ s.field_count)
  unfolding next on_res fetched
  next-At s R k a h =
      let n = (s.curr_row_no + 1) % 2 ^ 64 in
      let at = fetched-At s a.cursor n (suc k) R a.rows_are (a.position_is h) in
      let s' : RecordSet M = (fetched s (M.fetch_row a.cursor) n).1 in
      (s', rw a.res_is (ap (λ c. some (cursor_code c, s')) at.row_is), at, refl)

  rows_read-At :
      (xs : List Row) (s : RecordSet M) (R : List Row) (k : ℕ)
      → At R k s
      → drop k R ≡ xs
      → rows_read (length xs) s ≡ some xs
  unfolding rows_read
  rows_read-At [] s R k a e = refl
  rows_read-At (x ∷ xs) s R k a e =
      let (at, rest, h) = get_elem?-drop R k x xs e in
      let (rec, s1, e1, row, a1, _, _) = get_record-At s R k x a at in
      let (s2, e2, a2, _) = next-At s1 R k a1 h in
      rw e1 (rw row (rw e2 (rw (rows_read-At xs s2 R (suc k) a2 rest))))

  -- The loop of the callers over a fresh result sees every row, each once and in order.
  pub rows_read-set_mysql_res :
      (s : RecordSet M) (r : M.Res)
      → L.position r ≡ 0
      → rows_read (M.num_rows r) (set_mysql_res s r) ≡ some (L.rows r)
  unfolding set_mysql_res
  rows_read-set_mysql_res s r p =
      let s0 : RecordSet M = record s { field_count = M.num_fields r; row_count = M.num_rows r } in
      ap (λ n. rows_read n (set_mysql_res s r)) (L.num_rows-length r)
      ∙ rows_read-At (L.rows r) (set_mysql_res s r) (L.rows r) 0
          (fetched-At s0 r 0 0 (L.rows r) refl p) refl

  -- `last` seeks to the row whose number is the count, and so never stands on a row: on any set
  -- it returns RC_S_CURSOR_END and leaves no current row.
  last-cursor_end :
      (s : RecordSet M) (r : M.Res)
      → s.res ≡ some r
      → (s' : RecordSet M) × (last s ≡ some (rc_s_cursor_end, s')) × (s'.row ≡ none)
  unfolding last on_res fetched cursor_code
  last-cursor_end s r e =
      let r' : M.Res = M.data_seek (M.num_rows r) r in
      let end : (M.fetch_row r').1 ≡ none =
        L.fetch_row-get r'
        ∙ rw (L.data_seek-rows, L.data_seek-position, L.num_rows-length)
            (get_elem?-length (L.rows r)) in
      let s' : RecordSet M = (fetched s (M.fetch_row r') (M.num_rows r)).1 in (s', rw (e, end), end)
