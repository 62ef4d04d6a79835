-- ===== src/Protocol/Threads/Order.antt =====
-- The texts that clients are given, over every order in which the two threads take their steps.
use mathlib.Core.Path.{subst}
use sysmonitor.Base.{
  ℕ, suc, ◌<◌, ◌≡◌, refl, sym, ap, ◌∙◌, List, [], ◌∷◌, ◌++◌, none, some, arith, length,
  length-append, append_assoc, inl, inr, ◌⊎◌,
}
use sysmonitor.Base.Text.{Bytes}
use sysmonitor.Protocol.Queue.{
  Sublist, nil, keep, skip, Sublist-snoc, Sublist-trans, Sublist-refl, Sublist-behind,
}
use sysmonitor.Protocol.Threads.{
  Node, node, Reader, waits, sized, begun, copied, Threads, find_node, Step, finds_none, finds_some,
  begins_at_end, begins, copies, pops, is_short, is_long, trims_one, trimmed, pushes, fresh, Reach,
  at_once, later, shown,
}

-- All numbers of the list lie between.
pub Above : ℕ → List Node → Type 0
Above n [] = Unit {0}
Above n (x ∷ q) = (n < x.number) × Above n q

pub Below : ℕ → List Node → Type 0
Below n [] = Unit {0}
Below n (x ∷ q) = (x.number < n) × Below n q

unfoldable pub Ascends : List Node → Type 0
unfolding Above
Ascends [] = Unit {0}
Ascends (x ∷ q) = Above x.number q × Ascends q

Above-snoc : (n : ℕ) (q : List Node) (x : Node) → Above n q → n < x.number → Above n (q ++ x ∷ [])
unfolding Above
Above-snoc n [] x h l = (l, tt)
Above-snoc n (y ∷ q) x (a, h) l = (a, Above-snoc n q x h l)

Below-snoc :
    (n : ℕ) (q : List Node) (x : Node) → Below n q → x.number ≡ n → Below (suc n) (q ++ x ∷ [])
unfolding Below
Below-snoc n [] x h e = (omega (arith, e), tt)
Below-snoc n (y ∷ q) x (a, h) e = (omega (arith, a), Below-snoc n q x h e)

Ascends-snoc :
    (n : ℕ) (q : List Node) (x : Node)
    → Below n q
    → Ascends q
    → x.number ≡ n
    → Ascends (q ++ x ∷ [])
unfolding Below Ascends Above
Ascends-snoc n [] x b h e = (tt, tt)
Ascends-snoc n (y ∷ q) x (l, b) (a, h) e =
    (Above-snoc y.number q x a (omega (arith, l, e)), Ascends-snoc n q x b h e)

pub find_node-Above : (n : ℕ) (q : List Node) → Above n q → find_node n q ≡ none
unfolding Above find_node
find_node-Above n [] h = refl
find_node-Above n (x ∷ q) (a, h) = ground (arith, a, find_node-Above n q h)

pub shown-append : (q r : List Node) → shown (q ++ r) ≡ shown q ++ shown r
shown-append [] r = refl
shown-append (x ∷ q) r = ap (◌∷◌ x.text) (shown-append q r)

-- The node is the first of the list, or it has been deleted.
unfoldable pub FirstOrDeleted : ℕ → List Node → Type 0
FirstOrDeleted n q = ((s : Bytes) × (q' : List Node) × (q ≡ node n s ∷ q')) ⊎ Above n q

-- What the event thread relies on.
unfoldable pub Holds : Reader → List Bytes → List Bytes → List Node → Type 0
unfolding FirstOrDeleted
Holds waits given made q = Unit {0}
Holds sized given made q = Unit {0}
Holds (begun n) given made q = (n < length made) × FirstOrDeleted n q
Holds (copied s) given made q =
    ((n : ℕ) × (q' : List Node) × (q ≡ node n s ∷ q')) ⊎ Sublist (given ++ s ∷ shown q) made

pub record Kept (t : Threads) : Type 0 where
  pub ascends : Ascends t.list_buf
  pub below : Below (length t.made) t.list_buf
  pub order : Sublist (t.given ++ shown t.list_buf) t.made
  pub holds : Holds t.reader t.given t.made t.list_buf

pub cons-inj : (x y : Node) (q r : List Node) → x ∷ q ≡ y ∷ r → (x ≡ y) × (q ≡ r)
cons-inj x y q r e = (cc, cc)

-- The first node is deleted.
trim-Holds :
    (r : Reader) (given made : List Bytes) (x : Node) (q : List Node)
    → Above x.number q
    → Sublist (given ++ x.text ∷ shown q) made
    → Holds r given made (x ∷ q)
    → Holds r given made q
unfolding Holds FirstOrDeleted Above
trim-Holds waits given made x q a h k = tt
trim-Holds sized given made x q a h k = tt
trim-Holds (begun n) given made x q a h (l, inl (s, q', e)) =
    (l, inr (subst (λ m. Above m q) (ap (λ y. y.number) (cons-inj _ _ _ _ e).0) a))
trim-Holds (begun n) given made x q a h (l, inr (b, above)) = (l, inr above)
trim-Holds (copied s) given made x q a h (inl (n, q', e)) =
    inr
      (subst (λ t. Sublist (given ++ t ∷ shown q) made) (ap (λ y. y.text) (cons-inj _ _ _ _ e).0) h)
trim-Holds (copied s) given made x q a h (inr sub) = inr (
    Sublist-trans sub
      (Sublist-behind given (keep s _ _ (skip x.text _ _ (Sublist-refl (shown q))))))

push-Sublist :
    (given made : List Bytes) (q : List Node) (x : Node)
    → Sublist (given ++ shown q) made
    → Sublist (given ++ shown (q ++ x ∷ [])) (made ++ x.text ∷ [])
push-Sublist given made q x h =
    subst (λ l. Sublist l (made ++ x.text ∷ []))
      (append_assoc given (shown q) (x.text ∷ []) ∙ ap (◌++◌ given) (sym (shown-append q (x ∷ []))))
      (Sublist-snoc x.text _ _ h)

-- A node is pushed.
push-Holds :
    (r : Reader) (given made : List Bytes) (q : List Node) (s : Bytes)
    → Holds r given made q
    → Holds r given (made ++ s ∷ []) (q ++ node (length made) s ∷ [])
unfolding Holds FirstOrDeleted
push-Holds waits given made q s h = tt
push-Holds sized given made q s h = tt
push-Holds (begun n) given made q s (l, h) =
    let len = length-append made (s ∷ []) in
    (
      omega (arith, len, l),
      elim h [
        | inl (t, q', e) ↦
            inl (t, q' ++ node (length made) s ∷ [], ap (λ u. u ++ node (length made) s ∷ []) e)
        | inr above ↦ inr (Above-snoc n q (node (length made) s) above l)
      ],
    )
push-Holds (copied t) given made q s (inl (n, q', e)) =
    inl (n, q' ++ node (length made) s ∷ [], ap (λ u. u ++ node (length made) s ∷ []) e)
push-Holds (copied t) given made q s (inr sub) = inr (
    subst (λ l. Sublist l (made ++ s ∷ []))
      (append_assoc given (t ∷ shown q) (s ∷ [])
        ∙ ap (λ l. given ++ t ∷ l) (sym (shown-append q (node (length made) s ∷ []))))
      (Sublist-snoc s _ _ sub))

pub find_node-first :
    (n : ℕ) (s t : Bytes) (q : List Node) → find_node n (node n t ∷ q) ≡ some s → s ≡ t
unfolding find_node
find_node-first n s t q e = ground (arith, e)

-- The text of a node that is still there is that of the first node.
copy-Holds :
    (n : ℕ) (s : Bytes) (given made : List Bytes) (q : List Node)
    → Holds (begun n) given made q
    → find_node n q ≡ some s
    → Holds (copied s) given made q
unfolding Holds FirstOrDeleted
copy-Holds n s given made q (l, inl (t, q', e)) f =
    let same = find_node-first n s t q' (subst (λ u. find_node n u ≡ some s) e f) in
    inl (n, q', e ∙ ap (λ u. node n u ∷ q') (sym same))
copy-Holds n s given made q (l, inr above) f =
    absurd (let z = find_node-Above n q above in ground (arith, z, f))

-- The first node is taken, for the text that was copied.
pop-Sublist :
    (s : Bytes) (given made : List Bytes) (x : Node) (q : List Node)
    → Holds (copied s) given made (x ∷ q)
    → Sublist (given ++ x.text ∷ shown q) made
    → Sublist ((given ++ s ∷ []) ++ shown q) made
unfolding Holds
pop-Sublist s given made x q (inl (n, q', e)) h =
    let same = ap (λ y. y.text) (cons-inj _ _ _ _ e).0 in
    subst (λ l. Sublist l made) (sym (append_assoc given (s ∷ []) (shown q)))
      (subst (λ t. Sublist (given ++ t ∷ shown q) made) same h)
pop-Sublist s given made x q (inr sub) h =
    subst (λ l. Sublist l made) (sym (append_assoc given (s ∷ []) (shown q)))
      (Sublist-trans sub
        (Sublist-behind given (keep s _ _ (skip x.text _ _ (Sublist-refl (shown q))))))

-- Without its first node the list is still in order.
rest-Kept :
    (t : Threads) (x : Node) (q : List Node)
    → Kept t
    → t.list_buf ≡ x ∷ q
    → Ascends (x ∷ q) × Below (length t.made) (x ∷ q) × Sublist (t.given ++ x.text ∷ shown q) t.made
rest-Kept t x q k e = (
  subst Ascends e k.ascends,
  subst (Below (length t.made)) e k.below,
  subst (λ l. Sublist (t.given ++ shown l) t.made) e k.order,
)

-- What the reader relies on, where it stands.
pub stands : (t : Threads) (r : Reader) → Kept t → t.reader ≡ r → Holds r t.given t.made t.list_buf
stands t r k e = subst (λ u. Holds u t.given t.made t.list_buf) e k.holds

Step-Kept : {t u : Threads} → Step t u → Kept t → Kept u
unfolding Holds FirstOrDeleted Ascends Below
Step-Kept (finds_none r e) k = k
Step-Kept (finds_some r l) k = record {
  ascends = k.ascends;
  below = k.below;
  order = k.order;
  holds = tt;
}
Step-Kept (begins_at_end r e) k = record {
  ascends = k.ascends;
  below = k.below;
  order = k.order;
  holds = tt;
}
Step-Kept {t} (begins x q r e) k =
    let (a, b, h) = rest-Kept t x q k e in
    record {
      ascends = k.ascends;
      below = k.below;
      order = k.order;
      holds = (b.0, inl (x.text, q, e));
    }
Step-Kept {t} (copies n s r f) k = record {
  ascends = k.ascends;
  below = k.below;
  order = k.order;
  holds = copy-Holds n s t.given t.made t.list_buf (stands t (begun n) k r) f;
}
Step-Kept {t} (pops s x q r e) k =
    let (a, b, h) = rest-Kept t x q k e in
    let there = subst (Holds (copied s) t.given t.made) e (stands t (copied s) k r) in
    record {
      ascends = a.1;
      below = b.1;
      order = pop-Sublist s t.given t.made x q there h;
      holds = tt;
    }
Step-Kept (is_short w l) k = record {
  ascends = k.ascends;
  below = k.below;
  order = k.order;
  holds = k.holds;
}
Step-Kept (is_long w l) k = record {
  ascends = k.ascends;
  below = k.below;
  order = k.order;
  holds = k.holds;
}
Step-Kept {t} (trims_one n x q w e) k =
    let (a, b, h) = rest-Kept t x q k e in
    let there = subst (Holds t.reader t.given t.made) e k.holds in
    let less =
      Sublist-trans h (Sublist-behind t.given (skip x.text _ _ (Sublist-refl (shown q)))) in
    record {
      ascends = a.1;
      below = b.1;
      order = less;
      holds = trim-Holds t.reader t.given t.made x q a.0 h there;
    }
Step-Kept (trimmed w) k = record {
  ascends = k.ascends;
  below = k.below;
  order = k.order;
  holds = k.holds;
}
Step-Kept {t} (pushes s w) k =
    let x = node (length t.made) s in
    let len : suc (length t.made) ≡ length (t.made ++ s ∷ []) =
      omega (arith, length-append t.made (s ∷ [])) in
    record {
      ascends = Ascends-snoc (length t.made) t.list_buf x k.below k.ascends refl;
      below =
          subst (λ n. Below n (t.list_buf ++ x ∷ [])) len
            (Below-snoc (length t.made) t.list_buf x k.below refl);
      order = push-Sublist t.given t.made t.list_buf x k.order;
      holds = push-Holds t.reader t.given t.made t.list_buf s k.holds;
    }

pub Reach-Kept : {t : Threads} → Reach fresh t → Kept t
unfolding Holds Ascends Below
Reach-Kept at_once = record { ascends = tt; below = tt; order = nil; holds = tt }
Reach-Kept (later r st) = Step-Kept st (Reach-Kept r)
