-- ===== src/MysqlMonitor/Slaves.antt =====
-- What `show slave status` gives, and what happens when a connection was not kept.
use sysmonitor.Base.{
  ℕ, ◌<◌, ◌≡◌, refl, ap, ◌∙◌, true, false, List, [], ◌∷◌, map, Option, none, some, arith, length,
  get_elem?, get_elem?-some, ltb, Option-cases, inl, inr,
}
use sysmonitor.Base.Fallible.{◌>>=◌}
use sysmonitor.Base.Text.{Bytes}
use sysmonitor.ConnString.{ConnStr}
use sysmonitor.Mysql.Api.{MysqlApi, Row, CursorLaw}
use sysmonitor.Mysql.Record.{Record, RecordSet, set_mysql_res, fetched, get_cell, get_data_text}
use sysmonitor.Mysql.Connection.{Conn}
use sysmonitor.MysqlMonitor.{
  column, slave_columns, show_slave_status, query_set, read_set, read_rows, get_master_slave_data,
}
use sysmonitor.MysqlMonitor.Rows.{traverse, record_of, collected, read_rows-set_mysql_res}

-- The text of a column, and no text for NULL.
abbrev text_of : Option (Option Bytes) → Bytes
text_of (some (some s)) = s
text_of _ = []

abbrev pub shown : Row → List Bytes
shown row =
    text_of (get_elem? row 10) ∷ text_of (get_elem? row 11) ∷ text_of (get_elem? row 32) ∷ []

-- Each row has a cell for each column, and there are more than 32 columns.
abbrev pub AllWide : ℕ → List Row → Type 0
AllWide n [] = 32 < n
AllWide n (row ∷ rows) = (length row ≡ n) × AllWide n rows

column-get_cell :
    (row : Row) (n idx : ℕ)
    → length row ≡ n
    → idx < n
    → column (get_cell (record_of n row) idx) ≡ some (text_of (get_elem? row idx))
unfolding column get_cell
column-get_cell row n idx e h =
    let inside : ltb n idx ≡ false = ground arith in
    let (c, at) = get_elem?-some row idx (omega arith) in
    elim (Option-cases c) [ inl n ↦ rw (inside, at, n) refl | inr (t, n) ↦ rw (inside, at, n) refl ]

slave_columns-shown :
    (row : Row) (n : ℕ)
    → length row ≡ n
    → 32 < n
    → slave_columns (record_of n row) ≡ some (shown row)
unfolding slave_columns get_data_text
slave_columns-shown row n e h =
    rw
      (
        column-get_cell row n 10 e (omega (arith, h)),
        column-get_cell row n 11 e (omega (arith, h)),
        column-get_cell row n 32 e h,
      )
      refl

more_than_32 : (n : ℕ) (rows : List Row) → AllWide n rows → 32 < n
more_than_32 n [] h = h
more_than_32 n (row ∷ rows) h = more_than_32 n rows h.1

traverse-shown :
    (n : ℕ) (rows : List Row)
    → AllWide n rows
    → traverse (λ row. slave_columns (record_of n row)) rows ≡ some (map shown rows)
unfolding traverse
traverse-shown n [] h = refl
traverse-shown n (row ∷ rows) (e, h) =
    rw (slave_columns-shown row n e (more_than_32 n rows h), traverse-shown n rows h) refl

slave_columns-ignores :
    (r : Record) (ls : Option (List ℕ))
    → slave_columns (record r { lengths = ls }) ≡ slave_columns r
unfolding slave_columns get_data_text get_cell
slave_columns-ignores r ls = refl

collected-put {ℓ κ μ} :
    {A : Type ℓ} {S : Type κ} {T : Type μ} (g : S → T) (o : Option (List A × S))
    → collected (o >>= λ x. some (x.0, g x.1)) ≡ collected o
collected-put g none = refl
collected-put g (some (rows, s)) = refl

module _ {M : MysqlApi} (L : CursorLaw M) where
  row_count-set : (s : RecordSet M) (r : M.Res) → (set_mysql_res s r).row_count ≡ M.num_rows r
  unfolding set_mysql_res fetched
  row_count-set s r = refl

  -- The slaves of one connection: if the query gives a result whose rows have a cell for each of
  -- more than 32 columns, the monitor collects one entry for each row, in order, with the
  -- texts of the columns 10, 11 and 32, and an empty text for NULL.
  pub get_master_slave_data-shown :
      (raw : ConnStr) (c c' : Conn M) (s : RecordSet M) (r : M.Res)
      → query_set raw show_slave_status c ≡ some (true, c')
      → c'.record_set ≡ set_mysql_res s r
      → L.position r ≡ 0
      → AllWide (M.num_fields r) (L.rows r)
      → collected (get_master_slave_data raw c) ≡ some (map shown (L.rows r))
  unfolding get_master_slave_data read_set
  get_master_slave_data-shown raw c c' s r q e p wide =
      let f = slave_columns in
      let count : (set_mysql_res s r).row_count ≡ M.num_rows r = row_count-set s r in
      let loop =
        read_rows-set_mysql_res L f slave_columns-ignores s r p
        ∙ traverse-shown (M.num_fields r) (L.rows r) wide in
      let rest = ap (λ n. collected (read_rows f n (set_mysql_res s r))) count ∙ loop in
      rw (q, e)
        (collected-put (λ x. record c' { record_set = x })
            (read_rows f (set_mysql_res s r).row_count (set_mysql_res s r))
          ∙ rest)
