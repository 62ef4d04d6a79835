-- ===== src/ConnString.antt =====
-- SysMonitor/db_utility.h and db_utility.cpp: the database connection string.
-- `char*` fields are literals or offsets into `cs_buf`; `none` is a read or write out of a buffer.
pub mod Param
pub mod Safety
pub mod Tests
use Prim.Native.Nat.{bit_or}
use sysmonitor.Base.{
  ℕ, zero, suc, ◌+◌, ◌-◌, ◌%◌, ◌^◌, Bool, true, false, List, [], ◌∷◌, ◌++◌, not, ◌||◌, Option, none,
  some, ltb, ◌==◌, if◌then◌else◌, length, drop, set, get_or, replicate,
}
use sysmonitor.Base.Int.{ℤ, pos_part, neg_part}
use sysmonitor.Base.Text.{Bytes, codes, text, strstr, strchr, strcmp_eq, atoi}
use sysmonitor.Port.{write, strlwr}
use sysmonitor.Rc.{rc_s_ok, rc_e_nomem}

abbrev pub max_db_cs_len : ℕ
max_db_cs_len = 256

-- A `const char*` of the structure.
pub data Field : Type 0 where
  literal : Bytes → Field
  offset : ℕ → Field

pub record ConnStr : Type 0 where
  pub cs_name : Field
  pub db_driver : Field
  pub db_source : Field
  pub db_name : Field
  pub db_user : Field
  pub db_pwd : Field
  pub db_charset : Field
  pub db_host : Field
  pub db_port : ℕ
  pub db_flag : ℕ
  pub db_socket : Field
  pub db_slave_id : ℕ
  pub db_keep_alive : ℕ
  pub db_max_conn : ℕ
  pub db_base_conn : ℕ
  pub cs_buf : List ℕ

-- The text that a field points at.
unfoldable pub field_text : ConnStr → Field → Bytes
field_text cs (literal s) = s
field_text cs (offset i) = text (drop i cs.cs_buf)

pub data Lookup : Type 0 where
  not_found : Lookup
  found : ℕ → ℕ → Lookup

-- Behind the name: `="`, and the value up to the next quote.
value_at : List ℕ → ℕ → Option ℕ → Option Lookup
value_at str at none = some not_found
value_at str at (some len) = some (found at len)

param_at : List ℕ → Bytes → Option ℕ → Option Lookup
unfolding value_at
param_at str param none = some not_found
param_at str param (some i) =
    let at = i + 1 + length param + 1 in
    if i == 0
    then some not_found
    else if not (get_or str (i - 1) 0 == 32)
    then some not_found
    else if ltb at (length str)
    then value_at str at (strchr (text (drop at str)) b'"')
    else none

-- `str` is the whole buffer; no caller passes a null pointer.
unfoldable pub get_param_value : List ℕ → Bytes → Option Lookup
unfolding param_at
get_param_value str param = param_at str param (strstr (text str) param)

-- One `if (RC_S_OK == get_param_value(...) && value_len)` with its body.
when_value : Option Lookup → (ℕ → ℕ → ConnStr → Option ConnStr) → ConnStr → Option ConnStr
when_value none body cs = none
when_value (some not_found) body cs = some cs
when_value (some (found p len)) body cs = if len == 0 then some cs else body p len cs

-- `db_cs->cs_buf[i] = 0x00`
end_at : ℕ → ConnStr → Option ConnStr
end_at i cs =
    if ltb i (length cs.cs_buf) then some (record cs { cs_buf = set cs.cs_buf i 0 }) else none

infixl 5 ◌>>=◌
abbrev ◌>>=◌ : {A B : Type 0} → Option A → (A → Option B) → Option B
none >>= f = none
some a >>= f = f a

-- An `int` stored in a `UINT32_T`.
abbrev pub to_u32 : ℤ → ℕ
to_u32 z = (pos_part z + (2 ^ 32 - neg_part z % 2 ^ 32)) % 2 ^ 32

abbrev atoi_at : ConnStr → ℕ → ℕ
atoi_at cs p = to_u32 (atoi (text (drop p cs.cs_buf)))

split_host : ℕ → Option ℕ → ConnStr → Option ConnStr
unfolding end_at
split_host p none cs = some cs
split_host p (some k) cs = do
  cs' ← end_at (p + k) (record cs { db_host = cs.db_source })
  some (record cs' { db_port = atoi_at cs' (p + k + 1) })

source_body : ℕ → ℕ → ConnStr → Option ConnStr
unfolding split_host end_at
source_body p len cs = do
  cs' ← end_at (p + len) (record cs { db_source = offset p })
  split_host p (strchr (text (drop p cs'.cs_buf)) b',') cs'

compress_body : ℕ → ℕ → ConnStr → Option ConnStr
unfolding end_at
compress_body p len cs = do
  cs' ← end_at (p + len) cs
  some (
      if strcmp_eq (codes "yes") (text (drop p cs'.cs_buf))
      then record cs' { db_flag = bit_or cs'.db_flag 32 }
      else cs')

-- The defaults, and the copy of the string.
init_fields : ConnStr → List ℕ → ConnStr
init_fields cs buf = record cs {
  cs_name = literal [];
  db_driver = literal [];
  db_source = literal [];
  db_name = literal [];
  db_user = literal [];
  db_pwd = literal [];
  db_charset = literal (codes "utf8");
  db_host = literal [];
  db_port = 0;
  db_flag = 0x30000;
  db_socket = literal [];
  db_slave_id = 0;
  db_keep_alive = 0;
  db_max_conn = 0;
  db_base_conn = 0;
  cs_buf = buf;
}

-- The pointer steps and the number steps of the parser.
text_step : List ℕ → Bytes → (ℕ → ConnStr → ConnStr) → ConnStr → Option ConnStr
unfolding when_value end_at
text_step lcs name put =
    when_value (get_param_value lcs name) (λ p len cs. end_at (p + len) (put p cs))

number_step : List ℕ → Bytes → (ℕ → ConnStr → ConnStr) → ConnStr → Option ConnStr
unfolding when_value end_at
number_step lcs name put =
    when_value (get_param_value lcs name)
      (λ p len cs. end_at (p + len) cs >>= λ cs'. some (put (atoi_at cs' p) cs'))

parse_params : List ℕ → ConnStr → Option ConnStr
unfolding text_step number_step source_body compress_body when_value
parse_params lcs cs0 = do
  cs1 ← text_step lcs (codes "name") (λ p cs. record cs { cs_name = offset p }) cs0
  cs2 ← text_step lcs (codes "driver") (λ p cs. record cs { db_driver = offset p }) cs1
  cs3 ← when_value (get_param_value lcs (codes "source")) source_body cs2
  cs4 ← text_step lcs (codes "dbname") (λ p cs. record cs { db_name = offset p }) cs3
  cs5 ← text_step lcs (codes "dbusr") (λ p cs. record cs { db_user = offset p }) cs4
  cs6 ← text_step lcs (codes "dbpwd") (λ p cs. record cs { db_pwd = offset p }) cs5
  cs7 ← text_step lcs (codes "dbcharset") (λ p cs. record cs { db_charset = offset p }) cs6
  cs8 ← number_step lcs (codes "dbflag") (λ n cs. record cs { db_flag = n }) cs7
  cs9 ← text_step lcs (codes "dbsocket") (λ p cs. record cs { db_socket = offset p }) cs8
  cs10 ← number_step lcs (codes "slaveid") (λ n cs. record cs { db_slave_id = n }) cs9
  cs11 ← number_step lcs (codes "keepalive") (λ n cs. record cs { db_keep_alive = n }) cs10
  cs12 ← number_step lcs (codes "maxconn") (λ n cs. record cs { db_max_conn = n }) cs11
  cs13 ← number_step lcs (codes "baseconn") (λ n cs. record cs { db_base_conn = n }) cs12
  when_value (get_param_value lcs (codes "compress")) compress_body cs13

-- `db_parse_cs`: the code that it returns and the structure that it leaves.
unfoldable pub db_parse_cs : ConnStr → Bytes → Option (ℕ × ConnStr)
unfolding parse_params init_fields
db_parse_cs cs str = if ltb max_db_cs_len (length str) then some (rc_e_nomem, cs) else do
  buf ← write cs.cs_buf (str ++ 0 ∷ [])
  lcs ← write (replicate max_db_cs_len 0) (strlwr (text buf) ++ 0 ∷ [])
  done ← parse_params lcs (init_fields cs buf)
  some (rc_s_ok, done)
