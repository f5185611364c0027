-- ===== src/Reply/Refines/Rows.antt =====
-- What the statements of internal/repository/reply/reply.go do to the map of the rules.
use weiyeston.Base.{
  ℕ, suc, Bool, true, false, Option, none, some, is_none, List, [], ◌∷◌, ◌++◌, ℤ, pos, int_eq, ◌==◌,
  ◌≡◌, ◌≢◌, refl, ap, ◌∙◌, arith, find, count, update_where, if◌then◌else◌, int_beq_iff, All,
  Bool-cases, inl, inr, find_sound,
}
use weiyeston.Keys.{IsNumbered, IsNumbered-fresh}
use weiyeston.Reply.{AutoReplyRule, ReplyTables, is_rule, stored}
use weiyeston.Reply.Handlers.{ReplyVo, to_reply_vo}
use weiyeston.Reply.Spec.{seen, view, put, erase}

abbrev pub id_of : AutoReplyRule → ℤ
id_of r = r.id

module _ (id : ℤ) (change : AutoReplyRule → AutoReplyRule) where
  find-change_apart :
      (j : ℤ) (xs : List AutoReplyRule)
      → ((x : AutoReplyRule) → (change x).id ≡ x.id)
      → id ≢ j
      → find (is_rule j) (update_where (is_rule id) change xs) ≡ find (is_rule j) xs
  unfolding find update_where
  find-change_apart j [] k n = refl
  find-change_apart j (x ∷ xs) k n = ground (
    arith,
    k x,
    n,
    int_beq_iff x.id id,
    int_beq_iff x.id j,
    int_beq_iff (change x).id j,
    find-change_apart j xs k n,
  )

  find-change_same :
      (xs : List AutoReplyRule) (r : AutoReplyRule)
      → ((x : AutoReplyRule) → (change x).id ≡ x.id)
      → ((x : AutoReplyRule) → (change x).deleted_at ≡ x.deleted_at)
      → find (is_rule id) xs ≡ some r
      → find (is_rule id) (update_where (is_rule id) change xs) ≡ some (change r)
  unfolding find update_where
  find-change_same [] r k d h = cc
  find-change_same (x ∷ xs) r k d h =
      ground (arith, h, k x, d x, ap is_none (d x), find-change_same xs r k d)

  find-delete_same :
      (xs : List AutoReplyRule)
      → ((x : AutoReplyRule) → is_none (change x).deleted_at ≡ false)
      → find (is_rule id) (update_where (is_rule id) change xs) ≡ none
  unfolding find update_where
  find-delete_same [] d = refl
  find-delete_same (x ∷ xs) d = ground (arith, d x, find-delete_same xs d)

find-append_fresh :
    (j : ℤ) (xs : List AutoReplyRule) (r : AutoReplyRule)
    → All (λ x. x.id ≢ r.id) xs
    → is_none r.deleted_at ≡ true
    → find (is_rule j) (xs ++ r ∷ []) ≡ (if r.id == j then some r else find (is_rule j) xs)
unfolding find
find-append_fresh j [] r f l = ground (arith, l)
find-append_fresh j (x ∷ xs) r f l =
    ground (arith, l, f.0, int_beq_iff x.id j, int_beq_iff r.id j, find-append_fresh j xs r f.1 l)

seen-if :
    (b : Bool) (r : AutoReplyRule) (o : Option AutoReplyRule)
    → seen (if b then some r else o) ≡ (if b then some (to_reply_vo r) else seen o)
seen-if true r o = refl
seen-if false r o = refl

-- A new rule is put under its id.
pub view-insert :
    (now : ℕ) (r : AutoReplyRule) (t : ReplyTables) (j : ℤ)
    → IsNumbered id_of t.next_rule t.rules
    → view (record t { rules = t.rules ++ stored now r t ∷ []; next_rule = suc t.next_rule }) j
      ≡ put (to_reply_vo (stored now r t)) (view t) j
view-insert now r t j numbered =
    ap seen (
      find-append_fresh j t.rules (stored now r t)
        (IsNumbered-fresh id_of t.next_rule t.rules numbered) refl)
    ∙ seen-if (pos t.next_rule == j) (stored now r t) (find (is_rule j) t.rules)

module _ (id : ℤ) (change : AutoReplyRule → AutoReplyRule) (t : ReplyTables) (j : ℤ) where
  abbrev changed : ReplyTables
  changed = record t { rules = update_where (is_rule id) change t.rules }

  -- The live rule of an id, and what else a reader sees.
  pub view-change :
      (r : AutoReplyRule)
      → ((x : AutoReplyRule) → (change x).id ≡ x.id)
      → ((x : AutoReplyRule) → (change x).deleted_at ≡ x.deleted_at)
      → find (is_rule id) t.rules ≡ some r
      → view changed j ≡ put (to_reply_vo (change r)) (view t) j
  view-change r k d found =
      let both = find_sound (is_rule id) t.rules r found in
      let named : (change r).id ≡ id = k r ∙ ground (arith, both, int_beq_iff r.id id) in
      elim (Bool-cases (id == j)) [
        | inl same ↦
            let e = (int_beq_iff id j).0 same in
            let test : ((change r).id == j) ≡ true = ap (λ i. i == j) named ∙ same in
            rw (test, ← e) (ap seen (find-change_same id change t.rules r k d found))
        | inr apart ↦
            let test : ((change r).id == j) ≡ false = ap (λ i. i == j) named ∙ apart in
            rw test (
              ap seen (
                find-change_apart id change j t.rules k
                  (λ e. ground (arith, apart, e, int_beq_iff id j))))
      ]

  pub view-delete :
      ((x : AutoReplyRule) → (change x).id ≡ x.id)
      → ((x : AutoReplyRule) → is_none (change x).deleted_at ≡ false)
      → view changed j ≡ erase id (view t) j
  view-delete k d = elim (Bool-cases (id == j)) [
    | inl same ↦
        let e = (int_beq_iff id j).0 same in
        rw (same, ← e) (ap seen (find-delete_same id change t.rules d))
    | inr apart ↦ rw apart (
        ap seen (
          find-change_apart id change j t.rules k
            (λ e. ground (arith, apart, e, int_beq_iff id j))))
  ]

pub find-fresh :
    (n : ℕ) (xs : List AutoReplyRule) → IsNumbered id_of n xs → find (is_rule (pos n)) xs ≡ none
unfolding find
find-fresh n [] h = refl
find-fresh n (x ∷ xs) h = ground (arith, h.0, int_beq_iff x.id (pos n), find-fresh n xs h.1)

-- A row that is counted is seen.
pub find-of-count :
    (id : ℤ) (xs : List AutoReplyRule)
    → count (is_rule id) xs ≢ 0
    → (old : ReplyVo) × (seen (find (is_rule id) xs) ≡ some old)
unfolding count find
find-of-count id [] h = absurd (h refl)
find-of-count id (x ∷ xs) h = elim (Bool-cases (is_rule id x)) [
  | inl here ↦ (to_reply_vo x, ap (λ b. seen (if b then some x else find (is_rule id) xs)) here)
  | inr later ↦
      let (old, e) = find-of-count id xs (λ z. h (ground (arith, later, z))) in
      (old, ap (λ b. seen (if b then some x else find (is_rule id) xs)) later ∙ e)
]
