-- ===== src/Protocol/Queue.antt =====
-- The queue of snapshots over every history of calls: its bound, its order, and what is read.
use sysmonitor.Base.{
  ℕ, zero, suc, ◌+◌, ◌-◌, ◌≤◌, ◌≡◌, refl, sym, ap, ◌∙◌, Bool, false, List, [], ◌∷◌, ◌++◌, ◌||◌,
  ◌&&◌, Option, some, arith, Bool-cases, inl, inr, if◌then◌else◌, length, drop, take, leb, ltb,
  length-drop, length-append, append_assoc, append-nil, take-append_at,
}
use sysmonitor.Base.Text.{Bytes, Lacks, strcmp_eq}
use sysmonitor.Protocol.Writer.{Json, FastWriterLaw}
use sysmonitor.Protocol.{
  Protocol, Reply, new_protocol, check_word, deal_ndb_operation, get_last_buf, read, write,
  rset_list_buf, rfind_newline, trim_newline, collect, snapshot,
}

-- The first list is the second with some of its entries left out.
pub data Sublist {ℓ} {A : Type ℓ} : List A → List A → Type ℓ where
  nil : Sublist [] []
  keep : (x : A) (xs ys : List A) → Sublist xs ys → Sublist (x ∷ xs) (x ∷ ys)
  skip : (y : A) (xs ys : List A) → Sublist xs ys → Sublist xs (y ∷ ys)

-- A client's word, or a turn of the monitoring thread.
pub data Call (J : Json) : Type 0 where
  ask : Bytes → Call J
  tick : List (Option (J.Value → J.Value)) → Call J

-- The object, the texts that clients have been given, and the snapshots that were made.
pub record Trace : Type 0 where
  pub object : Protocol
  pub given : List Bytes
  pub made : List Bytes

pub start : Trace
start = record { object = new_protocol; given = []; made = [] }

-- A reply carries a snapshot if the word is right and the queue is not empty.
unfoldable pub answered : Bytes → Protocol → Reply → List Bytes
answered word p r =
    if strcmp_eq word check_word || strcmp_eq word deal_ndb_operation
    then elim p.list_buf [ [] ↦ [] | first ∷ rest ↦ r.buf ∷ [] ]
    else []

pub step : {J : Json} → Bool → Call J → Trace → Trace
unfolding answered
step has_ndb (ask word) t =
    let (r, p) = read has_ndb word t.object in
    record t { object = p; given = t.given ++ answered word t.object r }
step {J} has_ndb (tick monitors) t = record t {
  object = (write J monitors t.object).1;
  made = t.made ++ snapshot J monitors ∷ [];
}

pub run : {J : Json} → Bool → List (Call J) → Trace → Trace
run has_ndb [] t = t
run has_ndb (c ∷ cs) t = run has_ndb cs (step has_ndb c t)

module _ {ℓ} {A : Type ℓ} where
  pub Sublist-snoc :
      (x : A) (xs ys : List A) → Sublist xs ys → Sublist (xs ++ x ∷ []) (ys ++ x ∷ [])
  Sublist-snoc x _ _ nil = keep x [] [] nil
  Sublist-snoc x _ _ (keep y xs ys h) = keep y _ _ (Sublist-snoc x xs ys h)
  Sublist-snoc x _ _ (skip y xs ys h) = skip y _ _ (Sublist-snoc x xs ys h)

  pub Sublist-refl : (xs : List A) → Sublist xs xs
  Sublist-refl [] = nil
  Sublist-refl (x ∷ xs) = keep x xs xs (Sublist-refl xs)

  pub Sublist-trans :
      {ys zs : List A} → Sublist ys zs → {xs : List A} → Sublist xs ys → Sublist xs zs
  Sublist-trans nil h = h
  Sublist-trans (skip z ys zs k) h = skip z _ zs (Sublist-trans k h)
  Sublist-trans (keep _ _ zs k) (keep x xs ys h) = keep x xs zs (Sublist-trans k h)
  Sublist-trans (keep _ _ zs k) (skip y xs ys h) = skip y xs zs (Sublist-trans k h)

  drop-Sublist : (n : ℕ) (xs : List A) → Sublist (drop n xs) xs
  drop-Sublist zero xs = Sublist-refl xs
  drop-Sublist (suc n) [] = nil
  drop-Sublist (suc n) (x ∷ xs) = skip x _ xs (drop-Sublist n xs)

  pub Sublist-behind :
      (xs : List A) {ys zs : List A} → Sublist ys zs → Sublist (xs ++ ys) (xs ++ zs)
  Sublist-behind [] h = h
  Sublist-behind (x ∷ xs) h = keep x _ _ (Sublist-behind xs h)

pub rset_list_buf-Sublist : (n : ℕ) (q : List Bytes) → Sublist (rset_list_buf n q) q
unfolding rset_list_buf
rset_list_buf-Sublist n q = elim (Bool-cases (leb n (length q) && ltb 5 (length q))) [
  | inl t ↦ rw t (drop-Sublist (length q - 5) q)
  | inr t ↦ rw t (Sublist-refl q)
]

pub length-rset_list_buf : (q : List Bytes) → length q ≤ 10 → length (rset_list_buf 10 q) ≤ 9
unfolding rset_list_buf
length-rset_list_buf q h = ground (arith, length-drop (length q - 5) q)

-- In order: what was given and what still waits is what was made, some of it left out.
InOrder : Trace → Type 0
InOrder t = Sublist (t.given ++ t.object.list_buf) t.made

Bounded : Trace → Type 0
Bounded t = length t.object.list_buf ≤ 10

read-kept_of :
    (has_ndb : Bool) (word : Bytes) (c : Bool) (q : List Bytes)
    → let p : Protocol = record { checked = c; list_buf = q } in
      answered word p (read has_ndb word p).0 ++ (read has_ndb word p).1.list_buf ≡ q
unfolding answered read get_last_buf
read-kept_of has_ndb word c [] = ground arith
read-kept_of has_ndb word c (x ∷ q) = ground arith

read-kept :
    (has_ndb : Bool) (word : Bytes) (p : Protocol)
    → answered word p (read has_ndb word p).0 ++ (read has_ndb word p).1.list_buf ≡ p.list_buf
read-kept has_ndb word p = read-kept_of has_ndb word p.checked p.list_buf

read-le :
    (has_ndb : Bool) (word : Bytes) (p : Protocol)
    → length (read has_ndb word p).1.list_buf ≤ length p.list_buf
read-le has_ndb word p =
    let r = (read has_ndb word p).1.list_buf in
    let a = answered word p (read has_ndb word p).0 in
    omega (arith, length-append a r, ap length (read-kept has_ndb word p))

module _ {J : Json} where
  step-InOrder : (has_ndb : Bool) (c : Call J) (t : Trace) → InOrder t → InOrder (step has_ndb c t)
  unfolding InOrder step write
  step-InOrder has_ndb (ask word) t h =
      rw (append_assoc t.given _ _, read-kept has_ndb word t.object) h
  step-InOrder has_ndb (tick monitors) t h =
      let s = snapshot J monitors in
      let q = t.object.list_buf in
      let kept = Sublist-trans h (Sublist-behind t.given (rset_list_buf-Sublist 10 q)) in
      rw (sym (append_assoc t.given (rset_list_buf 10 q) (s ∷ []))) (Sublist-snoc s _ _ kept)

  step-Bounded : (has_ndb : Bool) (c : Call J) (t : Trace) → Bounded t → Bounded (step has_ndb c t)
  unfolding Bounded step write
  step-Bounded has_ndb (ask word) t h = omega (arith, read-le has_ndb word t.object)
  step-Bounded has_ndb (tick monitors) t h = omega (
    arith,
    length-rset_list_buf t.object.list_buf h,
    length-append (rset_list_buf 10 t.object.list_buf) (snapshot J monitors ∷ []),
  )

  run-both :
      (has_ndb : Bool) (cs : List (Call J)) (t : Trace)
      → InOrder t × Bounded t
      → InOrder (run has_ndb cs t) × Bounded (run has_ndb cs t)
  unfolding run
  run-both has_ndb [] t h = h
  run-both has_ndb (c ∷ cs) t (h, b) =
      run-both has_ndb cs (step has_ndb c t)
        (step-InOrder has_ndb c t h, step-Bounded has_ndb c t b)

  -- Over every history of requests and turns the queue never holds more than ten snapshots, and
  -- the texts given to clients, with those that still wait behind them, are the snapshots in the
  -- order in which they were made, some of them left out: none is given twice or out of order.
  pub run-InOrder :
      (has_ndb : Bool) (cs : List (Call J))
      → Sublist
          ((run has_ndb cs start).given ++ (run has_ndb cs start).object.list_buf)
          (run has_ndb cs start).made
        × (length (run has_ndb cs start).object.list_buf ≤ 10)
  unfolding InOrder Bounded start new_protocol
  run-InOrder has_ndb cs = run-both has_ndb cs start (nil, omega arith)

rfind_newline-last : (s : Bytes) → Lacks 10 s → rfind_newline (s ++ 10 ∷ []) ≡ some (length s)
unfolding rfind_newline
rfind_newline-last [] h = refl
rfind_newline-last (x ∷ s) h = ground (arith, rfind_newline-last s h.1)

trim_newline-last : (s : Bytes) → Lacks 10 s → trim_newline (s ++ 10 ∷ []) ≡ s
unfolding trim_newline
trim_newline-last s h =
    let tail : drop (length s + 2) (s ++ 10 ∷ []) ≡ [] =
      drop-all (s ++ 10 ∷ []) (length s + 2) (omega (arith, length-append s (10 ∷ []))) in
    let found = rfind_newline-last s h in
    let here : trim_newline (s ++ 10 ∷ [])
        ≡ take (length s) (s ++ 10 ∷ []) ++ drop (length s + 2) (s ++ 10 ∷ []) =
      ground (arith, found) in
    here ∙ rw (take-append_at s (10 ∷ []) (length s) refl, tail) (append-nil s)
  where
    drop-all : (xs : Bytes) (n : ℕ) → length xs ≤ n → drop n xs ≡ []
    drop-all [] zero h = refl
    drop-all [] (suc n) h = refl
    drop-all (x ∷ xs) zero h = absurd (omega arith)
    drop-all (x ∷ xs) (suc n) h = drop-all xs n (omega arith)

-- With a serialiser that writes one line, a client that finds the queue empty but for the last
-- turn reads that line without its newline, and the count is its length with the NUL.
pub read-write :
    (J : Json) (L : FastWriterLaw J) (monitors : List (Option (J.Value → J.Value))) (p : Protocol)
    (has_ndb : Bool)
    → p.list_buf ≡ []
    → (s : Bytes) × (J.write (collect J monitors J.null) ≡ s ++ 10 ∷ [])
      × ((read has_ndb check_word (write J monitors p).1).0
          ≡ record { count = (write J monitors p).0; buf = s; resets = false })
      × ((read has_ndb check_word (write J monitors p).1).1.list_buf ≡ [])
unfolding read write get_last_buf snapshot check_word FastWriterLaw strcmp_eq rset_list_buf
read-write J L monitors p has_ndb h =
    let (s, e, k) = L (collect J monitors J.null) in
    let t : trim_newline (J.write (collect J monitors J.null)) ≡ s =
      rw (e, trim_newline-last s k) refl in
    (s, e, rw (h, t) refl, rw h refl)
