-- ===== src/Mysql/Record.antt =====
-- `CMysqlRecord` and `CMysqlRecordSet`. `none` is an assertion that fails, or a read outside the
-- row; the codes are those of error.h.
pub mod Cursor
pub mod Tests
pub mod Column
use mathlib.Core.Option
use sysmonitor.Base.{
  ℕ, zero, suc, [], ◌∷◌, ◌+◌, ◌-◌, ◌%◌, ◌^◌, Bool, true, false, List, Option, none, some, ltb,
  if◌then◌else◌, get_elem?,
}
use sysmonitor.Base.Int.{ℤ, pos_part, neg_part}
use sysmonitor.Base.Text.{Bytes, atoi}
use sysmonitor.ConnString.{to_u32}
use sysmonitor.Rc.{
  rc_s_ok, rc_s_null_value, rc_s_cursor_end, rc_e_nomem, rc_e_index, rc_e_unsupported,
}
use sysmonitor.Mysql.Api.{MysqlApi, Row}

pub record Record : Type 0 where
  pub row : Option Row
  pub field_count : ℕ
  pub lengths : Option (List ℕ)

-- All three members are set, whatever they were.
abbrev set_mysql_row : Option Row → ℕ → Option (List ℕ) → Record
set_mysql_row row field_count lengths = record {
  row = row;
  field_count = field_count;
  lengths = lengths;
}

-- What a `get_data` gives: a code other than RC_S_OK, or the value.
pub data Got {ℓ} (A : Type ℓ) : Type ℓ where
  code : ℕ → Got A
  value : A → Got A

map_got {ℓ κ} : {A : Type ℓ} {B : Type κ} → (A → B) → Got A → Got B
map_got f (code c) = code c
map_got f (value a) = value (f a)

cell_of : Option (Option Bytes) → Option (Got Bytes)
cell_of none = none
cell_of (some none) = some (code rc_s_null_value)
cell_of (some (some s)) = some (value s)

-- CHECK_FIELD_EX and CHECK_FIELD, and the read of the column.
unfoldable pub get_cell : Record → ℕ → Option (Got Bytes)
unfolding cell_of
get_cell r idx = elim r.row [
  | none ↦ none
  | some row ↦ if ltb r.field_count idx then some (code rc_e_index) else cell_of (get_elem? row idx)
]

-- The seven `get_data`; in that of `DOUBLE_T`, what `atof` makes of a text is an argument.
unfoldable pub get_data_text : Record → ℕ → Option (Got Bytes)
get_data_text = get_cell

int_of : (ℤ → ℕ) → Option (Got Bytes) → Option (Got ℕ)
unfolding map_got
int_of f o = Option.map (map_got (λ s. f (atoi s))) o

pub get_data_u16 : Record → ℕ → Option (Got ℕ)
get_data_u16 r idx = int_of (λ z. to_u32 z % 2 ^ 16) (get_cell r idx)

pub get_data_u32 : Record → ℕ → Option (Got ℕ)
get_data_u32 r idx = int_of to_u32 (get_cell r idx)

to_u64 : ℤ → ℕ
to_u64 z = (pos_part z + (2 ^ 64 - neg_part z % 2 ^ 64)) % 2 ^ 64

pub get_data_u64 : Record → ℕ → Option (Got ℕ)
unfolding to_u64
get_data_u64 r idx = int_of to_u64 (get_cell r idx)

pub get_data_float : Record → ℕ → Option (Got ℤ)
get_data_float r idx = Option.map (map_got atoi) (get_cell r idx)

pub get_data_double {ℓ} : {D : Type ℓ} → (Bytes → D) → Record → ℕ → Option (Got D)
get_data_double atof r idx = Option.map (map_got atof) (get_cell r idx)

length_of : Option (Option Bytes) → Option ℕ → Option (Got (Option Bytes × ℕ))
length_of (some s) (some n) = some (if ltb 0xffffffff n then code rc_e_nomem else value (s, n))
length_of _ _ = none

with_lengths : Record → Row → Option (List ℕ) → ℕ → Option (Got (Option Bytes × ℕ))
unfolding length_of
with_lengths r row none idx = some (code rc_e_nomem)
with_lengths r row (some ls) idx = length_of (get_elem? row idx) (get_elem? ls idx)

pub get_data_sized : Record → ℕ → Option (Got (Option Bytes × ℕ))
unfolding with_lengths
get_data_sized r idx = elim r.row [
  | none ↦ none
  | some row ↦
      if ltb r.field_count idx then some (code rc_e_index) else with_lengths r row r.lengths idx
]

infixl 5 ◌>>=◌
abbrev ◌>>=◌ {ℓ κ} : {A : Type ℓ} {B : Type κ} → Option A → (A → Option B) → Option B
none >>= f = none
some a >>= f = f a

module _ (M : MysqlApi) where
  open M use {Res, num_fields, num_rows, fetch_row, data_seek, fetch_lengths, field_names}

  pub record RecordSet : Type 0 where
    pub res : Option Res
    pub row : Option Row
    pub curr_row_no : ℕ
    pub lengths : Option (List ℕ)
    pub row_count : ℕ
    pub field_count : ℕ
    pub rec : Record

pub cursor_code : Option Row → ℕ
cursor_code none = rc_s_cursor_end
cursor_code (some _) = rc_s_ok

module _ {M : MysqlApi} where
  open M use {Res, num_fields, num_rows, fetch_row, data_seek, fetch_lengths, field_names}

  pub new_record_set : RecordSet M
  new_record_set = record {
    res = none;
    row = none;
    curr_row_no = 0;
    lengths = none;
    row_count = 0;
    field_count = 0;
    rec = set_mysql_row none 0 none;
  }

  -- `m_row = mysql_fetch_row(m_res)`, and the code for it.
  unfoldable pub fetched : RecordSet M → Res × Option Row → ℕ → ℕ × RecordSet M
  unfolding cursor_code
  fetched s (r, row) n = (cursor_code row, record s { res = some r; row = row; curr_row_no = n })

  unfoldable pub set_mysql_res : RecordSet M → Res → RecordSet M
  unfolding fetched
  set_mysql_res s r =
      (fetched (record s { field_count = num_fields r; row_count = num_rows r }) (fetch_row r) 0).1

  on_res : RecordSet M → (Res → ℕ × RecordSet M) → Option (ℕ × RecordSet M)
  on_res s f = Option.map f s.res

  pub fetch : RecordSet M → Option (ℕ × RecordSet M)
  unfolding on_res cursor_code
  fetch s = on_res s (λ r. (cursor_code s.row, s))

  pub close : RecordSet M → Option (ℕ × RecordSet M)
  unfolding on_res
  close s = on_res s (λ r. (rc_s_ok, record s { res = none }))

  pub first : RecordSet M → Option (ℕ × RecordSet M)
  unfolding on_res fetched
  first s = on_res s (λ r. fetched s (fetch_row (data_seek 0 r)) 0)

  pub last : RecordSet M → Option (ℕ × RecordSet M)
  unfolding on_res fetched
  last s = on_res s (λ r. fetched s (fetch_row (data_seek (num_rows r) r)) (num_rows r))

  -- The row number is a UINT64_T.
  unfoldable pub next : RecordSet M → Option (ℕ × RecordSet M)
  unfolding on_res fetched
  next s = on_res s (λ r. fetched s (fetch_row r) ((s.curr_row_no + 1) % 2 ^ 64))

  pub prev : RecordSet M → Option (ℕ × RecordSet M)
  unfolding on_res fetched
  prev s =
      on_res s λ r.
        let n = (s.curr_row_no + 2 ^ 64 - 1) % 2 ^ 64 in fetched s (fetch_row (data_seek n r)) n

  pub get_field_count : RecordSet M → Option ℕ
  get_field_count s = Option.map (λ _. s.field_count) s.res

  -- The name is written, and the code is that of an unsupported call all the same.
  pub get_field_name : RecordSet M → ℕ → Option (ℕ × Bytes)
  get_field_name s idx =
      Option.bind s.res
        (λ r. Option.map (λ name. (rc_e_unsupported, name)) (get_elem? (field_names r) idx))

  pub get_field_idx : RecordSet M → Bytes → ℕ
  get_field_idx s name = rc_e_unsupported

  pub get_row_count32 : RecordSet M → Got ℕ
  get_row_count32 s = if ltb 0xffffffff s.row_count then code rc_e_nomem else value s.row_count

  pub get_row_count64 : RecordSet M → Got ℕ
  get_row_count64 s = value s.row_count

  -- NULL once the rows are used up.
  unfoldable pub get_record : RecordSet M → Option (Option Record × RecordSet M)
  get_record s =
      Option.map
        (λ r. elim s.row [
          | none ↦ (none, s)
          | some row ↦
              let rec = set_mysql_row s.row s.field_count (some (fetch_lengths r)) in
              (some rec, record s { lengths = some (fetch_lengths r); rec = rec })
        ])
        s.res

  -- The loop of the callers: `for (i = 0; i < row_count; i++) { get_record(); ...; next(); }`,
  -- with the rows that it sees.
  pub rows_read : ℕ → RecordSet M → Option (List Row)
  unfolding next get_record
  rows_read zero s = some []
  rows_read (suc n) s = do
    (rec, s') ← get_record s
    rec' ← rec
    row ← rec'.row
    (_, s'') ← next s'
    rest ← rows_read n s''
    some (row ∷ rest)
