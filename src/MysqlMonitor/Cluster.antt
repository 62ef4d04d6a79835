-- ===== src/MysqlMonitor/Cluster.antt =====
-- The part of `CMysqlMonitor::write` that reads the output of `ndb_mgm`. `none` is a fault: a word
-- that is too long for its buffer, a variable that no conversion has set, a missing address.
use sysmonitor.Base.{
  ℕ, suc, ◌+◌, ◌-◌, Bool, true, false, ◌&&◌, ◌||◌, List, [], ◌∷◌, ◌++◌, Option, none, some, ltb,
  leb, if◌then◌else◌, length, drop, take, get_elem?,
}
use sysmonitor.Base.Int.{ℤ, pos, negsuc, pos_part, neg_part, sub_ℕ}
use sysmonitor.Base.Fallible.{◌>>=◌}
use sysmonitor.Base.Text.{Bytes, codes, text, contains}
use sysmonitor.Base.Stdio.{words, next_word, next_int, literally, read_lines, show_int}

-- Do the words fit buffers of 40 bytes?
fit_40 : List Bytes → Bool
fit_40 [] = true
fit_40 (w ∷ ws) = ltb (length w) 40 && fit_40 ws

guarded {ℓ} : {A : Type ℓ} → Bool → Option A → Option A
guarded b o = if b then o else none

-- The blocks of `get_ndb_show_state` for an address, and for a node that is not connected; the
-- second copies over what the first has left in `tempstr`.
address : Bytes → List Bytes → Option (List Bytes)
address w1 ws = do w2 ← get_elem? ws 2; w3 ← get_elem? ws 3; some (drop 1 w1 ∷ (w2 ++ 32 ∷ w3) ∷ [])

not_connected : Bytes → List Bytes → Option (List Bytes)
not_connected old ws = do
  w6 ← get_elem? ws 6
  let front = take (length w6 - 1) w6
  some ((front ++ drop (length front) old) ∷ codes "not connected" ∷ [])

tempstr : List Bytes → Bytes
tempstr (a ∷ b ∷ s) = b
tempstr _ = []

unfoldable pub get_ndb_show_state : Bytes → Option (List Bytes)
unfolding fit_40 address not_connected tempstr guarded
get_ndb_show_state line_str = do
  let ws = words 7 line_str
  w0 ← guarded (fit_40 ws) (get_elem? ws 0)
  id ← guarded (leb 3 (length w0)) (some (drop 3 w0))
  w1 ← get_elem? ws 1
  a ← (if contains w1 (codes "@") then address w1 ws else some [])
  n ← (if contains w1 (codes "(not") then not_connected (tempstr a) ws else some [])
  some (id ∷ a ++ n)

-- The variables of the loop over the lines of `show`. A count is none before it is set.
pub record Show : Type 0 where
  pub index : ℕ
  pub ndb_node_count : Option ℤ
  pub mgm_node_count : Option ℤ
  pub api_node_count : Option ℤ
  pub ndb_node_line_end : ℤ
  pub mgm_node_line_end : ℤ
  pub api_node_line_end : ℤ
  pub map_id_ip : List (ℤ × Bytes)
  pub ndb_state_data : List (List Bytes)
  pub mgm_state_data : List (List Bytes)
  pub api_state_data : List (List Bytes)

pub new_show : Show
new_show = record {
  index = 0;
  ndb_node_count = some (pos 0);
  mgm_node_count = none;
  api_node_count = some (pos 0);
  ndb_node_line_end = negsuc 0;
  mgm_node_line_end = negsuc 0;
  api_node_line_end = negsuc 0;
  map_id_ip = [];
  ndb_state_data = [];
  mgm_state_data = [];
  api_state_data = [];
}

-- `index <= line_end`
in_block : ℕ → ℤ → Bool
in_block index (pos n) = leb index n
in_block index (negsuc n) = false

-- `sscanf(line_buf, "id=%d %s", &id, tempIP)`
add_ip : Bytes → List (ℤ × Bytes) → Option (List (ℤ × Bytes))
unfolding guarded
add_ip line ips = do
  s ← literally (codes "id=") line
  (id, s') ← next_int s
  (ip, _) ← next_word s'
  guarded (ltb (length ip) 40) (some ((id, drop 1 ip) ∷ ips))

add_state : Bool → Bytes → List (List Bytes) → Option (List (List Bytes))
add_state false line data_list = some data_list
add_state true line data_list = do item ← get_ndb_show_state line; some (data_list ++ item ∷ [])

-- `sscanf(line_buf, "%s %d", tempvalue, &count)`: the count keeps its value if there is no number.
read_count : Bytes → Option ℤ → Option (Option ℤ)
unfolding guarded
read_count line count = do
  (w, s) ← next_word line
  guarded (ltb (length w) 40)
      (elim (next_int s) [ none ↦ some count | some (n, _) ↦ some (some n) ])

-- A line that opens a block: the count, and the index of the block's last line.
open_block : Bytes → Bytes → ℕ → Option ℤ × ℤ → Option (Option ℤ × ℤ)
unfolding read_count
open_block title line index (count, end) =
    if contains line title
    then (do
      count' ← read_count line count
      n ← count'
      some (some n, sub_ℕ (pos_part n + index) (neg_part n)))
    else some (count, end)

pub show_line : Bytes → Show → Option Show
unfolding in_block add_ip add_state open_block
show_line line st = do
  ips ←
      (if in_block st.index st.ndb_node_line_end
        then add_ip line st.map_id_ip
        else some st.map_id_ip)
  ndb ← add_state (in_block st.index st.ndb_node_line_end) line st.ndb_state_data
  mgm ← add_state (in_block st.index st.mgm_node_line_end) line st.mgm_state_data
  api ← add_state (in_block st.index st.api_node_line_end) line st.api_state_data
  (n, n_end) ←
      open_block (codes "[ndbd(NDB)]") line st.index (st.ndb_node_count, st.ndb_node_line_end)
  (m, m_end) ←
      open_block (codes "[ndb_mgmd(MGM)]") line st.index (st.mgm_node_count, st.mgm_node_line_end)
  (a, a_end) ←
      open_block (codes "[mysqld(API)]") line st.index (st.api_node_count, st.api_node_line_end)
  some (record {
    index = suc st.index;
    ndb_node_count = n;
    mgm_node_count = m;
    api_node_count = a;
    ndb_node_line_end = n_end;
    mgm_node_line_end = m_end;
    api_node_line_end = a_end;
    map_id_ip = ips;
    ndb_state_data = ndb;
    mgm_state_data = mgm;
    api_state_data = api;
  })

unfoldable pub show_lines : List Bytes → Show → Option Show
unfolding show_line
show_lines [] st = some st
show_lines (line ∷ lines) st = do st' ← show_line (text line) st; show_lines lines st'

-- `map_id_data[id].push_back(usage_rate)`: the map is ordered by its keys.
is_less : ℤ → ℤ → Bool
is_less a b = ltb (pos_part a + neg_part b) (pos_part b + neg_part a)

unfoldable pub push_usage : ℤ → ℤ → List (ℤ × List ℤ) → List (ℤ × List ℤ)
unfolding is_less
push_usage id rate [] = (id, rate ∷ []) ∷ []
push_usage id rate ((k, rates) ∷ m) =
    let rest = push_usage id rate m in
    if is_less id k
    then (id, rate ∷ []) ∷ (k, rates) ∷ m
    else if is_less k id
    then (k, rates) ∷ rest
    else (k, rates ++ rate ∷ []) ∷ m

-- `sscanf(line_buf, "%s %d: %s %s %s %d", ...)`
unfoldable pub usage_line : Bytes → List (ℤ × List ℤ) → Option (List (ℤ × List ℤ))
unfolding fit_40 guarded
usage_line line m =
    if contains line (codes "Node")
    then (do
      (w0, s0) ← next_word line
      (id, s1) ← next_int s0
      s2 ← literally (codes ":") s1
      (w1, s3) ← next_word s2
      (w2, s4) ← next_word s3
      (w3, s5) ← next_word s4
      (rate, _) ← next_int s5
      guarded (fit_40 (w0 ∷ w1 ∷ w2 ∷ w3 ∷ [])) (some (push_usage id rate m)))
    else some m

unfoldable pub usage_lines : List Bytes → List (ℤ × List ℤ) → Option (List (ℤ × List ℤ))
usage_lines [] m = some m
usage_lines (line ∷ lines) m = do m' ← usage_line (text line) m; usage_lines lines m'

find_ip : ℤ → List (ℤ × Bytes) → Option Bytes
unfolding is_less
find_ip id [] = none
find_ip id ((k, ip) ∷ ips) =
    let rest = find_ip id ips in if is_less id k || is_less k id then rest else some ip

-- `second.at(0)` and `second.at(1)` throw if they are missing; a missing address is NULL.
usage_item : List (ℤ × Bytes) → ℤ × List ℤ → Option (List Bytes)
unfolding find_ip
usage_item ips (id, rates) = do
  ip ← find_ip id ips
  used_data ← get_elem? rates 0
  used_index ← get_elem? rates 1
  some (show_int id ∷ ip ∷ show_int used_data ∷ show_int used_index ∷ [])

unfoldable pub usage_items : List (ℤ × Bytes) → List (ℤ × List ℤ) → Option (List (List Bytes))
unfolding usage_item
usage_items ips [] = some []
usage_items ips (u ∷ us) = do
  item ← usage_item ips u
  items ← usage_items ips us
  some (item ∷ items)

-- `fgets(line_buf, 256, pFile)` until the end of the output.
unfoldable pub lines_of : Bytes → List Bytes
lines_of out = read_lines (length out) 255 out

-- The four arrays, from the outputs of `show` and of `all report memoryusage`; none if the command
-- cannot be run.
unfoldable pub cluster_state : Option Bytes → Option Bytes → Option (List (List (List Bytes)))
unfolding new_show
cluster_state show memory = do
  out ← show
  st ← show_lines (lines_of out) new_show
  out' ← memory
  usage ← usage_lines (lines_of out') []
  items ← usage_items st.map_id_ip usage
  some (st.ndb_state_data ∷ st.mgm_state_data ∷ st.api_state_data ∷ items ∷ [])
