-- ===== src/Mysql/Record/Tests.antt =====
-- A library whose results are rows with a position, and a row read from one.
use sysmonitor.Base.{
  ℕ, zero, suc, ◌≡◌, ◌⊎◌, refl, true, false, List, ◌∷◌, [], Option, none, some, length, get_elem?,
}
use sysmonitor.Base.Text.{Bytes, codes}
use sysmonitor.Mysql.Api.{MysqlApi, Row, CursorLaw}
use sysmonitor.Mysql.Record.{Record, RecordSet, get_cell, new_record_set, set_mysql_res, rows_read}
use sysmonitor.Mysql.Record.Column.{Reads, Refused, get_cell_lem}
use sysmonitor.Mysql.Record.Cursor.{rows_read-set_mysql_res}

pub record Stored : Type 0 where
  pub rows : List Row
  pub at : ℕ

-- A handle is the number of results to come.
abbrev pub toy : MysqlApi
toy = record {
  Handle = ℕ;
  Res = Stored;
  init = λ h. (h, true);
  real_connect = λ c h. (h, false);
  set_character_set = λ b h. (h, 0);
  autocommit_off = λ h. (h, true);
  close = λ h. 0;
  errno = λ h. 0;
  error = λ h. [];
  has_server = λ h. false;
  reconnect_flag = λ h. 0;
  set_reconnect_flag = λ f h. h;
  ping = λ h. (h, 0);
  query = λ b h. (1, 0);
  commit_fails = λ h. (h, false);
  rollback_fails = λ h. (h, false);
  store_result = λ h. (h, some (record { rows = []; at = 0 }));
  next_result = λ h. elim h [ zero ↦ (zero, false) | suc n ↦ (n, true) ];
  pending = λ h. h;
  num_fields = λ r. 1;
  num_rows = λ r. length r.rows;
  fetch_row = λ r. (record r { at = suc r.at }, get_elem? r.rows r.at);
  data_seek = λ n r. record r { at = n };
  fetch_lengths = λ r. [];
  field_names = λ r. [];
}

abbrev toy-CursorLaw : CursorLaw toy
toy-CursorLaw = record {
  rows = λ r. r.rows;
  position = λ r. r.at;
  num_rows-length = λ r. refl;
  fetch_row-get = λ r. refl;
  fetch_row-rows = λ r. refl;
  fetch_row-position = λ r h. refl;
  data_seek-rows = λ n r. refl;
  data_seek-position = λ n r. refl;
}

abbrev row : Row
row = some (codes "7") ∷ none ∷ []

abbrev record_of_row : Record
record_of_row = record { row = some row; field_count = 2; lengths = none }

get_cell_lem_example :
    ((c : Option Bytes) × (get_elem? row 2 ≡ some c) × Reads c (get_cell record_of_row 2))
    ⊎ Refused row 2 (get_cell record_of_row 2)
get_cell_lem_example = get_cell_lem record_of_row row 2 refl refl

abbrev two_rows : Stored
two_rows = record { rows = row ∷ (none ∷ none ∷ []) ∷ []; at = 0 }

rows_read-set_mysql_res_example :
    rows_read {M = toy} 2 (set_mysql_res {M = toy} new_record_set two_rows) ≡ some two_rows.rows
rows_read-set_mysql_res_example = rows_read-set_mysql_res toy-CursorLaw new_record_set two_rows refl

abbrev on_two_rows : RecordSet toy
on_two_rows = set_mysql_res {M = toy} new_record_set two_rows
