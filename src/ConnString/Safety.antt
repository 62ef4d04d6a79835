-- ===== src/ConnString/Safety.antt =====
-- The parser of the connection string stays inside its buffers.
use sysmonitor.Base.{
  ℕ, ◌+◌, ◌-◌, ◌≤◌, ◌<◌, ◌≡◌, ◌≢◌, refl, ap, ◌∙◌, true, false, List, [], ◌∷◌, ◌++◌, Option, none,
  some, arith, ltb, ◌==◌, length, drop, set, Bool-cases, Option-cases, inl, inr, replicate, lt→ltb,
  length-append, length-drop, length-set, append-nil, append_assoc,
}
use sysmonitor.Base.Text.{
  Bytes, codes, text, starts, strstr, strchr, strcmp_eq, IsText, text-append, length-text,
  strchr-bound,
}
use sysmonitor.Port.{write, strlwr}
use sysmonitor.Port.Copy.{strlwr-IsText, length-strlwr}
use sysmonitor.Rc.{rc_s_ok, rc_e_nomem}
use sysmonitor.ConnString.{
  Lookup, found, not_found, get_param_value, param_at, value_at, ConnStr, when_value, end_at,
  split_host, source_body, compress_body, text_step, number_step, parse_params, init_fields,
  db_parse_cs, ◌>>=◌, max_db_cs_len, offset,
}
use sysmonitor.ConnString.Param.{get_param_value_bounds}

starts-length : (s t : Bytes) → starts s t ≡ true → length t ≤ length s
unfolding starts
starts-length s [] h = omega arith
starts-length [] (y ∷ t) h = cc
starts-length (x ∷ s) (y ∷ t) h = ground (arith, starts-length s t)

strstr-bound : (s t : Bytes) (i : ℕ) → strstr s t ≡ some i → i + length t ≤ length s
unfolding strstr
strstr-bound [] t i h = ground (arith, starts-length [] t)
strstr-bound (x ∷ s) t i h =
    ground (arith, starts-length (x ∷ s) t, Option-cases (strstr s t), strstr-bound s t (i - 1))

-- The step ends, and the buffer has kept its 256 bytes.
abbrev Ends : Option ConnStr → Type 0
Ends o = (cs : ConnStr) × (o ≡ some cs) × (length cs.cs_buf ≡ 256)

-- The lookup ends, and a value found lies in 256 bytes.
abbrev Looks : Option Lookup → Type 0
Looks o = (o ≢ none) × ((p len : ℕ) → o ≡ some (found p len) → p + len < 256)

get_param_value-ne-none :
    (str : List ℕ) (param : Bytes)
    → length str ≡ 256
    → length (text str) ≤ 253
    → get_param_value str param ≢ none
unfolding get_param_value param_at value_at
get_param_value-ne-none str param h t = elim (Option-cases (strstr (text str) param)) [
  | inl e ↦ rw e (ground arith)
  | inr (i, e) ↦ rw e (ground (arith, strstr-bound (text str) param i e))
]

get_param_value-Looks :
    (str : List ℕ) (param : Bytes)
    → length str ≡ 256
    → length (text str) ≤ 253
    → Looks (get_param_value str param)
get_param_value-Looks str param h t = (
  get_param_value-ne-none str param h t,
  λ p len e. omega (arith, (get_param_value_bounds str param p len e).0),
)

bind-Ends :
    (m : Option ConnStr) (f : ConnStr → Option ConnStr)
    → Ends m
    → ((cs : ConnStr) → length cs.cs_buf ≡ 256 → Ends (f cs))
    → Ends (m >>= f)
bind-Ends m f (cs, e, len) h = rw e (h cs len)

end_at-Ends : (i : ℕ) (cs : ConnStr) → i < 256 → length cs.cs_buf ≡ 256 → Ends (end_at i cs)
unfolding end_at
end_at-Ends i cs h len =
    let e : ltb i (length cs.cs_buf) ≡ true = lt→ltb _ _ (omega arith) in
    rw e (record cs { cs_buf = set cs.cs_buf i 0 }, refl, length-set cs.cs_buf i 0 ∙ len)

when_value-Ends :
    (o : Option Lookup) (body : ℕ → ℕ → ConnStr → Option ConnStr) (cs : ConnStr)
    → Looks o
    → length cs.cs_buf ≡ 256
    → ((p len : ℕ) → p + len < 256 → Ends (body p len cs))
    → Ends (when_value o body cs)
unfolding when_value
when_value-Ends none body cs l len h = absurd (l.0 refl)
when_value-Ends (some not_found) body cs l len h = (cs, refl, len)
when_value-Ends (some (found p n)) body cs l len h = elim (Bool-cases (n == 0)) [
  | inl e ↦ rw e (cs, refl, len)
  | inr e ↦ rw e (h p n (l.1 p n refl))
]

split_host-Ends :
    (p : ℕ) (o : Option ℕ) (cs : ConnStr)
    → ((k : ℕ) → o ≡ some k → p + k < 256)
    → length cs.cs_buf ≡ 256
    → Ends (split_host p o cs)
unfolding split_host
split_host-Ends p none cs h len = (cs, refl, len)
split_host-Ends p (some k) cs h len =
    bind-Ends _ _ (end_at-Ends (p + k) (record cs { db_host = cs.db_source }) (h k refl) len)
      (λ cs' len'. (_, refl, len'))

source_body-Ends :
    (p n : ℕ) (cs : ConnStr) → p + n < 256 → length cs.cs_buf ≡ 256 → Ends (source_body p n cs)
unfolding source_body
source_body-Ends p n cs h len =
    bind-Ends _ _ (end_at-Ends (p + n) (record cs { db_source = offset p }) h len)
      λ cs' len'. split_host-Ends p _ cs' (λ k e. comma cs' len' k e) len'
  where
    comma :
        (cs' : ConnStr)
        → length cs'.cs_buf ≡ 256
        → (k : ℕ) → strchr (text (drop p cs'.cs_buf)) b',' ≡ some k
        → p + k < 256
    comma cs' len' k e =
        omega (
          arith,
          (strchr-bound _ _ _ e).0,
          length-text (drop p cs'.cs_buf),
          length-drop p cs'.cs_buf,
        )

compress_body-Ends :
    (p n : ℕ) (cs : ConnStr) → p + n < 256 → length cs.cs_buf ≡ 256 → Ends (compress_body p n cs)
unfolding compress_body
compress_body-Ends p n cs h len = bind-Ends _ _ (end_at-Ends (p + n) cs h len) (λ cs' len'.
    elim (Bool-cases (strcmp_eq (codes "yes") (text (drop p cs'.cs_buf)))) [
      | inl e ↦ rw e (_, refl, len')
      | inr e ↦ rw e (cs', refl, len')
    ])

module _ (lcs : List ℕ) (hl : length lcs ≡ 256) (ht : length (text lcs) ≤ 253) where
  text_step-Ends :
      (name : Bytes) (put : ℕ → ConnStr → ConnStr) (cs : ConnStr)
      → ((p : ℕ) → (put p cs).cs_buf ≡ cs.cs_buf)
      → length cs.cs_buf ≡ 256
      → Ends (text_step lcs name put cs)
  unfolding text_step
  text_step-Ends name put cs keep len =
      when_value-Ends _ _ cs (get_param_value-Looks lcs name hl ht) len
        λ p n h. end_at-Ends (p + n) (put p cs) h (ap length (keep p) ∙ len)

  number_step-Ends :
      (name : Bytes) (put : ℕ → ConnStr → ConnStr) (cs : ConnStr)
      → ((n : ℕ) (cs' : ConnStr) → (put n cs').cs_buf ≡ cs'.cs_buf)
      → length cs.cs_buf ≡ 256
      → Ends (number_step lcs name put cs)
  unfolding number_step
  number_step-Ends name put cs keep len =
      when_value-Ends _ _ cs (get_param_value-Looks lcs name hl ht) len λ p n h.
        bind-Ends _ _ (end_at-Ends (p + n) cs h len)
          λ cs' len'. (_, refl, ap length (keep _ cs') ∙ len')

  parse_params-Ends : (cs : ConnStr) → length cs.cs_buf ≡ 256 → Ends (parse_params lcs cs)
  unfolding parse_params
  parse_params-Ends cs len = bind-Ends _ _ (text_step-Ends _ _ cs (λ p. refl) len) λ c1 l1.
      bind-Ends _ _ (text_step-Ends _ _ c1 (λ p. refl) l1) λ c2 l2.
        bind-Ends _ _
          (when_value-Ends _ source_body c2 (get_param_value-Looks lcs (codes "source") hl ht) l2
            (λ p n h. source_body-Ends p n c2 h l2))
          λ c3 l3. bind-Ends _ _ (text_step-Ends _ _ c3 (λ p. refl) l3) λ c4 l4.
            bind-Ends _ _ (text_step-Ends _ _ c4 (λ p. refl) l4) λ c5 l5.
              bind-Ends _ _ (text_step-Ends _ _ c5 (λ p. refl) l5) λ c6 l6.
                bind-Ends _ _ (text_step-Ends _ _ c6 (λ p. refl) l6) λ c7 l7.
                  bind-Ends _ _
                    (number_step-Ends (codes "dbflag") (λ n cs. record cs { db_flag = n }) c7
                      (λ n c. refl) l7)
                    λ c8 l8. bind-Ends _ _ (text_step-Ends _ _ c8 (λ p. refl) l8) λ c9 l9.
                      bind-Ends _ _
                        (number_step-Ends (codes "slaveid") (λ n cs. record cs { db_slave_id = n })
                          c9 (λ n c. refl) l9)
                        λ c10 l10.
                          bind-Ends _ _
                            (number_step-Ends (codes "keepalive")
                              (λ n cs. record cs { db_keep_alive = n }) c10 (λ n c. refl) l10)
                            λ c11 l11.
                              bind-Ends _ _
                                (number_step-Ends (codes "maxconn")
                                  (λ n cs. record cs { db_max_conn = n }) c11 (λ n c. refl) l11)
                                λ c12 l12.
                                  bind-Ends _ _
                                    (number_step-Ends (codes "baseconn")
                                      (λ n cs. record cs { db_base_conn = n }) c12 (λ n c. refl)
                                      l12)
                                    λ c13 l13.
                                      when_value-Ends _ compress_body c13
                                        (get_param_value-Looks lcs (codes "compress") hl ht) l13
                                        (λ p n h. compress_body-Ends p n c13 h l13)

write-nul :
    (dst : List ℕ) (s : Bytes)
    → length s < length dst
    → write dst (s ++ 0 ∷ []) ≡ some ((s ++ 0 ∷ []) ++ drop (length (s ++ 0 ∷ [])) dst)
unfolding write
write-nul dst s h = ground (arith, length-append s (0 ∷ []))

-- What `strcpy` leaves: a buffer of the same length that holds the text.
strcpy_lem :
    (dst : List ℕ) (s : Bytes)
    → length s < length dst
    → IsText s
    → (r : List ℕ) × (write dst (s ++ 0 ∷ []) ≡ some r) × (length r ≡ length dst) × (text r ≡ s)
strcpy_lem dst s h t = (
  (s ++ 0 ∷ []) ++ drop (length (s ++ 0 ∷ [])) dst,
  write-nul dst s h,
  omega (
    arith,
    length-append (s ++ 0 ∷ []) (drop (length (s ++ 0 ∷ [])) dst),
    length-append s (0 ∷ []),
    length-drop (length (s ++ 0 ∷ [])) dst,
  ),
  rw (append_assoc s (0 ∷ []) (drop (length (s ++ 0 ∷ [])) dst), text-append s _ t)
      (unfold text in append-nil s),
)

parse-returns :
    (cs : ConnStr) (str : Bytes) (buf lcs : List ℕ)
    → length str ≤ 253
    → write cs.cs_buf (str ++ 0 ∷ []) ≡ some buf
    → write (replicate 256 0) (strlwr (text buf) ++ 0 ∷ []) ≡ some lcs
    → length buf ≡ 256
    → length lcs ≡ 256
    → length (text lcs) ≤ 253
    → (r : ConnStr) × (db_parse_cs cs str ≡ some (rc_s_ok, r)) × (length r.cs_buf ≡ 256)
unfolding db_parse_cs init_fields
parse-returns cs str buf lcs h e1 e2 l1 l2 t =
    let (r, e3, l3) = parse_params-Ends lcs l2 t (init_fields cs buf) l1 in
    let small : ltb 256 (length str) ≡ false = ground arith in
    (r, rw (small, e1) (rw e2 (rw e3 refl)), l3)

second_copy :
    (cs : ConnStr) (str : Bytes) (buf : List ℕ)
    → IsText str
    → length str ≤ 253
    → write cs.cs_buf (str ++ 0 ∷ []) ≡ some buf
    → length buf ≡ 256
    → text buf ≡ str
    → (r : ConnStr) × (db_parse_cs cs str ≡ some (rc_s_ok, r)) × (length r.cs_buf ≡ 256)
second_copy cs str buf t h e1 l1 t1 =
    let small : length (strlwr (text buf)) ≤ 253 = rw t1 (omega (arith, length-strlwr str)) in
    let clean : IsText (strlwr (text buf)) = rw t1 (strlwr-IsText str t) in
    let (lcs, e2, l2, t2) = strcpy_lem (replicate 256 0) (strlwr (text buf)) (omega arith) clean in
    parse-returns cs str buf lcs h e1 e2 l1 l2 (rw t2 small)

-- `db_parse_cs` of a string of at most 253 bytes, whatever they are and whatever the structure
-- held, returns RC_S_OK, and no step reads or writes outside a buffer.
pub db_parse_cs-returns :
    (cs : ConnStr) (str : Bytes)
    → length cs.cs_buf ≡ max_db_cs_len
    → IsText str
    → length str ≤ 253
    → (r : ConnStr) × (db_parse_cs cs str ≡ some (rc_s_ok, r)) × (length r.cs_buf ≡ max_db_cs_len)
db_parse_cs-returns cs str len t h =
    let (buf, e1, l1, t1) = strcpy_lem cs.cs_buf str (omega arith) t in
    second_copy cs str buf t h e1 (l1 ∙ len) t1

-- A string of exactly 256 bytes passes the length test, and its NUL is written behind `cs_buf`.
db_parse_cs_overflow :
    (cs : ConnStr) (str : Bytes)
    → length cs.cs_buf ≡ max_db_cs_len
    → length str ≡ 256
    → db_parse_cs cs str ≡ none
unfolding db_parse_cs write
db_parse_cs_overflow cs str len h = ground (arith, length-append str (0 ∷ []))

-- A longer one is refused, and the structure stays as it was.
db_parse_cs_long :
    (cs : ConnStr) (str : Bytes) → 256 < length str → db_parse_cs cs str ≡ some (rc_e_nomem, cs)
unfolding db_parse_cs
db_parse_cs_long cs str h = ground arith
