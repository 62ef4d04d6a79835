-- ===== src/Protocol/Read.antt =====
-- What `read` replies, by the word and the queue.
use sysmonitor.Base.{
  ◌+◌, ◌≡◌, refl, Bool, true, false, ◌||◌, [], ◌∷◌, arith, length, Bool-cases, inl, inr, List,
}
use sysmonitor.Base.Text.{Bytes, strcmp_eq}
use sysmonitor.Protocol.{Protocol, check_word, check_error, deal_ndb_operation, get_last_buf, read}

-- The words that take a snapshot.
unfoldable pub asks : Bytes → Bool
asks word = strcmp_eq word check_word || strcmp_eq word deal_ndb_operation

pub read-next :
    (has_ndb : Bool) (word first : Bytes) (checked : Bool) (rest : List Bytes)
    → asks word ≡ true
    → (resets checked' : Bool) × (read has_ndb word
          (record { checked = checked; list_buf = first ∷ rest })
        ≡ (
          record { count = length first + 1; buf = first; resets = resets },
          record { checked = checked'; list_buf = rest },
        ))
unfolding asks read get_last_buf
read-next has_ndb word first checked rest h = elim (Bool-cases (strcmp_eq word check_word)) [
  | inl e ↦ (false, true, rw e refl)
  | inr e ↦
      let d : strcmp_eq word deal_ndb_operation ≡ true = ground (arith, e, h) in
      (has_ndb, checked, rw (e, d) refl)
]

pub read-empty :
    (has_ndb : Bool) (word : Bytes) (checked : Bool)
    → asks word ≡ true
    → (resets checked' : Bool) × (read has_ndb word (record { checked = checked; list_buf = [] })
        ≡ (
          record { count = 0; buf = []; resets = resets },
          record { checked = checked'; list_buf = [] },
        ))
unfolding asks read get_last_buf
read-empty has_ndb word checked h = elim (Bool-cases (strcmp_eq word check_word)) [
  | inl e ↦ (false, true, rw e refl)
  | inr e ↦
      let d : strcmp_eq word deal_ndb_operation ≡ true = ground (arith, e, h) in
      (has_ndb, checked, rw (e, d) refl)
]

pub read-refused :
    (has_ndb : Bool) (word : Bytes) (p : Protocol)
    → asks word ≡ false
    → read has_ndb word p
      ≡ (record { count = length check_error + 1; buf = check_error; resets = false }, p)
unfolding asks read
read-refused has_ndb word p h =
    let a : strcmp_eq word check_word ≡ false = ground (arith, h) in
    let b : strcmp_eq word deal_ndb_operation ≡ false = ground (arith, h) in rw (a, b) refl
