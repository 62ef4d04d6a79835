-- ===== src/Mysql/Record/Column.antt =====
-- `get_data`: which columns it reads.
use sysmonitor.Base.{
  ℕ, ◌<◌, ◌≡◌, ap, false, Option, none, some, arith, length, get_elem?, get_elem?-length,
  get_elem?-some, inl, inr, ltb, ltb→lt, Bool-cases, if◌then◌else◌, ◌⊎◌,
}
use sysmonitor.Base.Text.{Bytes}
use sysmonitor.Rc.{rc_e_index, rc_s_null_value}
use sysmonitor.Mysql.Api.{Row}
use sysmonitor.Mysql.Record.{Record, Got, code, value, cell_of, get_cell}

-- A column outside the row.
abbrev pub Refused : Row → ℕ → Option (Got Bytes) → Type 0
Refused row idx o =
    ((length row < idx) × (o ≡ some (code rc_e_index))) ⊎ ((length row ≡ idx) × (o ≡ none))

-- What `get_data` gives for the cell of a column.
abbrev pub Reads : Option Bytes → Option (Got Bytes) → Type 0
Reads none o = o ≡ some (code rc_s_null_value)
Reads (some s) o = o ≡ some (value s)

cell_of-Reads :
    (row : Row) (idx : ℕ) (c : Option Bytes)
    → get_elem? row idx ≡ some c
    → (n : ℕ) → ltb n idx ≡ false
    → Reads c (if ltb n idx then some (code rc_e_index) else cell_of (get_elem? row idx))
unfolding cell_of
cell_of-Reads row idx none e n h = rw (h, e)
cell_of-Reads row idx (some s) e n h = rw (h, e)

-- `get_data` on a record of a whole row: a column of the row gives its text, or the code of a NULL
-- value; a column past the count is refused; the column whose number is the count passes the
-- guard, and is read behind the end of the row.
pub get_cell_lem :
    (r : Record) (row : Row) (idx : ℕ)
    → r.row ≡ some row
    → r.field_count ≡ length row
    → ((c : Option Bytes) × (get_elem? row idx ≡ some c) × Reads c (get_cell r idx))
      ⊎ Refused row idx (get_cell r idx)
unfolding get_cell
get_cell_lem r row idx e n = rw e (elim (Bool-cases (ltb idx (length row))) [
  | inl inside ↦
      let (c, at) = get_elem?-some row idx (ltb→lt _ _ inside) in
      inl (c, at, cell_of-Reads row idx c at r.field_count (ground arith))
  | inr outside ↦ inr (elim (Bool-cases (ltb (length row) idx)) [
    | inl past ↦ inl (ltb→lt _ _ past, ground arith)
    | inr end ↦
        let same : length row ≡ idx = ground arith in
        inr (same, ground (arith, ap (get_elem? row) same, get_elem?-length row))
  ])
])
