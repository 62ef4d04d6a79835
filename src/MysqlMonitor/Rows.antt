-- ===== src/MysqlMonitor/Rows.antt =====
-- What the loops over a result append.
use mathlib.Core.Option
use sysmonitor.Base.{
  ℕ, suc, ◌≡◌, refl, sym, ap, ◌∙◌, List, [], ◌∷◌, Option, none, some, length, drop, Option-cases,
  inl, inr,
}
use sysmonitor.Base.Fallible.{◌>>=◌}
use sysmonitor.Mysql.Api.{MysqlApi, Row, CursorLaw}
use sysmonitor.Mysql.Record.{Record, RecordSet, set_mysql_res, get_record, next, fetched}
use sysmonitor.Mysql.Record.Cursor.{At, get_record-At, next-At, fetched-At, get_elem?-drop}
use sysmonitor.MysqlMonitor.{read_rows}

unfoldable pub traverse {ℓ κ} :
    {A : Type ℓ} {B : Type κ} → (A → Option B) → List A → Option (List B)
traverse f [] = some []
traverse f (x ∷ xs) = do b ← f x; bs ← traverse f xs; some (b ∷ bs)

-- The record of a row of a result with so many columns.
abbrev pub record_of : ℕ → Row → Record
record_of n row = record { row = some row; field_count = n; lengths = none }

map-bind {ℓ κ} :
    {A : Type ℓ} {B : Type κ} (g : A → B) (o : Option A) → Option.map g o ≡ (o >>= λ x. some (g x))
map-bind g none = refl
map-bind g (some a) = refl

-- What a loop has collected, whatever it leaves of the record set.
abbrev pub collected {ℓ κ} : {A : Type ℓ} {S : Type κ} → Option (List A × S) → Option (List A)
collected none = none
collected (some (rows, s)) = some rows

firsts {ℓ κ} :
    {A : Type ℓ} {S : Type κ} (a : A) (o : Option (List A × S))
    → collected (o >>= λ x. some (a ∷ x.0, x.1)) ≡ Option.map (λ rest. a ∷ rest) (collected o)
firsts a none = refl
firsts a (some p) = refl

module _ {M : MysqlApi} (L : CursorLaw M) {A : Type 0} (f : Record → Option A) where
  read_rows-some :
      (n : ℕ) (s s1 s2 : RecordSet M) (r : Record) (k : ℕ) (a : A)
      → get_record s ≡ some (some r, s1)
      → f r ≡ some a
      → next s1 ≡ some (k, s2)
      → collected (read_rows f (suc n) s)
        ≡ Option.map (λ rest. a ∷ rest) (collected (read_rows f n s2))
  unfolding read_rows
  read_rows-some n s s1 s2 r k a e1 e2 e3 = rw (e1, e2, e3) (firsts a (read_rows f n s2))

  read_rows-none :
      (n : ℕ) (s s1 : RecordSet M) (r : Record)
      → get_record s ≡ some (some r, s1)
      → f r ≡ none
      → collected (read_rows f (suc n) s) ≡ none
  unfolding read_rows
  read_rows-none n s s1 r e1 e2 = rw (e1, e2) refl

  read_rows-At :
      (ignores : (r : Record) (ls : Option (List ℕ)) → f (record r { lengths = ls }) ≡ f r)
      (xs : List Row) (s : RecordSet M) (R : List Row) (k n : ℕ)
      → At L R k s
      → drop k R ≡ xs
      → s.field_count ≡ n
      → collected (read_rows f (length xs) s) ≡ traverse (λ x. f (record_of n x)) xs
  unfolding traverse read_rows
  read_rows-At ignores [] s R k n a e c = refl
  read_rows-At ignores (x ∷ xs) s R k n a e c =
      let (at, rest, h) = get_elem?-drop R k x xs e in
      let (rec, s1, e1, row, a1, c1, c1') = get_record-At L s R k x a at in
      let (s2, e2, a2, c2) = next-At L s1 R k a1 h in
      let same : f rec ≡ f (record_of n x) =
        sym (ignores rec none)
        ∙ ap (λ o. f (record { row = o; field_count = rec.field_count; lengths = none })) row
        ∙ ap (λ m. f (record { row = some x; field_count = m; lengths = none })) (c1 ∙ c) in
      let later = read_rows-At ignores xs s2 R (suc k) n a2 rest (c2 ∙ c1' ∙ c) in
      elim (Option-cases (f (record_of n x))) [
        | inl e3 ↦ read_rows-none (length xs) s s1 rec e1 (same ∙ e3) ∙ rw e3 refl
        | inr (b, e3) ↦
            read_rows-some (length xs) s s1 s2 rec _ b e1 (same ∙ e3) e2
            ∙ ap (Option.map (λ rest. b ∷ rest)) later
            ∙ map-bind (λ rest. b ∷ rest) (traverse (λ y. f (record_of n y)) xs)
            ∙ rw e3 refl
      ]

  -- The loop over a fresh result visits every row, each once and in order: what it collects is what
  -- its body gives for the rows, and it fails where the body fails for one of them. The body may
  -- read the row and the number of columns, not the lengths.
  pub read_rows-set_mysql_res :
      (ignores : (r : Record) (ls : Option (List ℕ)) → f (record r { lengths = ls }) ≡ f r)
      (s : RecordSet M) (r : M.Res)
      → L.position r ≡ 0
      → collected (read_rows f (M.num_rows r) (set_mysql_res s r))
        ≡ traverse (λ row. f (record_of (M.num_fields r) row)) (L.rows r)
  unfolding set_mysql_res fetched
  read_rows-set_mysql_res ignores s r p =
      let s0 : RecordSet M = record s { field_count = M.num_fields r; row_count = M.num_rows r } in
      ap (λ n. collected (read_rows f n (set_mysql_res s r))) (L.num_rows-length r)
      ∙ read_rows-At ignores (L.rows r) (set_mysql_res s r) (L.rows r) 0 (M.num_fields r)
          (fetched-At L s0 r 0 0 (L.rows r) refl p) refl refl
