-- ===== src/Protocol/Threads.antt =====
-- The list of snapshots between two threads: `get_last_buf` runs in that of the events, `write` in
-- that of the timer, and no lock keeps them apart. Here are those of their runs in which no call of
-- the list overlaps another: each call is one step, and what goes wrong inside two calls at once is
-- left out. So the steps serve to show what can happen, not what cannot. A node of the list is told by
-- its number, so that an iterator may stand for a node that has been deleted.
pub mod Order
pub mod Safe
pub mod Tests
use sysmonitor.Base.{
  ℕ, zero, suc, ◌+◌, ◌-◌, ◌≤◌, ◌<◌, ◌≡◌, List, [], ◌∷◌, ◌++◌, map, Option, none, some, ◌==◌,
  if◌then◌else◌, length,
}
use sysmonitor.Base.Text.{Bytes}

pub record Node : Type 0 where
  pub number : ℕ
  pub text : Bytes

-- Where the thread of the events stands in `get_last_buf`, with its live locals.
pub data Reader : Type 0 where
  waits : Reader
  sized : Reader  -- behind the test of `size()`
  begun : (number : ℕ) → Reader  -- with `ifirst_buf`, behind its test
  copied : (first_buf : Bytes) → Reader  -- in front of `pop_front`

-- Where the thread of the timer stands in `write`.
pub data Writer : Type 0 where
  rests : Writer
  trimming : (pop_len : ℕ) → Writer  -- in the loop of `rset_list_buf`
  ready : Writer  -- in front of `push_back`

-- `given` and `made` are the texts that were copied for clients and those that were pushed, and
-- `trims` is how often the list was found too long.
pub record Threads : Type 0 where
  pub list_buf : List Node
  pub reader : Reader
  pub writer : Writer
  pub given : List Bytes
  pub made : List Bytes
  pub trims : ℕ

unfoldable pub find_node : ℕ → List Node → Option Bytes
find_node n [] = none
find_node n (x ∷ q) = let rest = find_node n q in if x.number == n then some x.text else rest

abbrev pub node : ℕ → Bytes → Node
node n s = record { number = n; text = s }

-- One call of the list, by either thread, while the other makes none.
pub data Step (t : Threads) : Threads → Type 0 where
  finds_none : t.reader ≡ waits → t.list_buf ≡ [] → Step t t
  finds_some : t.reader ≡ waits → 0 < length t.list_buf → Step t (record t { reader = sized })
  begins_at_end : t.reader ≡ sized → t.list_buf ≡ [] → Step t (record t { reader = waits })
  begins :
      (x : Node) (q : List Node)
      → t.reader ≡ sized
      → t.list_buf ≡ x ∷ q
      → Step t (record t { reader = begun x.number })
  copies :
      (n : ℕ) (s : Bytes)
      → t.reader ≡ begun n
      → find_node n t.list_buf ≡ some s
      → Step t (record t { reader = copied s })
  pops :
      (s : Bytes) (x : Node) (q : List Node)
      → t.reader ≡ copied s
      → t.list_buf ≡ x ∷ q
      → Step t (record t { reader = waits; list_buf = q; given = t.given ++ s ∷ [] })
  is_short : t.writer ≡ rests → length t.list_buf < 10 → Step t (record t { writer = ready })
  is_long :
      t.writer ≡ rests
      → 10 ≤ length t.list_buf
      → Step t (record t { writer = trimming (length t.list_buf - 5); trims = suc t.trims })
  trims_one :
      (k : ℕ) (x : Node) (q : List Node)
      → t.writer ≡ trimming (suc k)
      → t.list_buf ≡ x ∷ q
      → Step t (record t { writer = trimming k; list_buf = q })
  trimmed : t.writer ≡ trimming 0 → Step t (record t { writer = ready })
  pushes :
      (s : Bytes)
      → t.writer ≡ ready
      → Step t (record t {
        writer = rests;
        list_buf = t.list_buf ++ node (length t.made) s ∷ [];
        made = t.made ++ s ∷ [];
      })

-- The next call of a thread uses a deleted node, or takes the front of an empty list.
pub data Crashes (t : Threads) : Type 0 where
  deleted : (n : ℕ) → t.reader ≡ begun n → find_node n t.list_buf ≡ none → Crashes t
  no_front : (s : Bytes) → t.reader ≡ copied s → t.list_buf ≡ [] → Crashes t
  no_more : (k : ℕ) → t.writer ≡ trimming (suc k) → t.list_buf ≡ [] → Crashes t

abbrev pub fresh : Threads
fresh = record { list_buf = []; reader = waits; writer = rests; given = []; made = []; trims = 0 }

pub data Reach (s : Threads) : Threads → Type 0 where
  at_once : Reach s s
  later : {t u : Threads} → Reach s t → Step t u → Reach s u

abbrev pub shown : List Node → List Bytes
shown q = map (λ x. x.text) q
