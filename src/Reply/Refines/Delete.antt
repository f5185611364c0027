-- ===== src/Reply/Refines/Delete.antt =====
-- Delete of internal/handler/api/reply.go against the map of the rules.
use weiyeston.Base.{
  ℕ, Bool, true, false, Option, none, some, List, ℤ, Text, int_eq, nat_eq, ◌≡◌, ◌≢◌, refl, sym, ap,
  ◌∙◌, arith, count, update_where, ltb, some_injective, Bool-cases, inl, inr,
}
use weiyeston.Keys.{update_where_none}
use weiyeston.Strconv.{parse_int}
use weiyeston.Middleware.{Value}
use weiyeston.Http.{Env, stop, ◌>>◌, or_fail, require, respond, Response, success, statement}
use weiyeston.Http.Hoare.{
  Ensures, Ensures-answers, OnValue, Ensures->>=, Ensures->>, Ensures-or_fail, Ensures-statement,
}
use weiyeston.Reply.{
  AutoReplyRule, ReplyTables, W, is_rule, update_rules, deleted, whether_affected, soft_delete,
}
use weiyeston.Reply.Handlers.{
  ReplyVo, ReplyData, get_tenant_id, delete_reply, not_found, server_error,
}
use weiyeston.Reply.Spec.{view, erase}
use weiyeston.Reply.Refines.Rows.{view-delete, find-of-count}
use weiyeston.Reply.Refines.{Either, refused, get_tenant_id-Same}

module _ (env : Env) (param : Text) (tenant : Option Value) (id : ℤ) (w : W) where
  -- The id names a rule before and none after.
  pub record IsErased (r : Response ReplyData) (t : W) : Type 0 where
    pub was : (old : ReplyVo) × (view w.tables id ≡ some old)
    pub views : (j : ℤ) → view t.tables j ≡ erase id (view w.tables) j

  abbrev E : Response ReplyData → W → Type 0
  E = Either 200 w IsErased

  abbrev gone : ReplyTables → ReplyTables
  gone t = record t { rules = update_where (is_rule id) (deleted env.now) t.rules }

  -- Whether a row was affected, with the tables that follow.
  abbrev Affected : Bool → W → Type 0
  Affected true t = (count (is_rule id) w.tables.rules ≢ 0) × (t.tables ≡ gone w.tables)
  Affected false t = t.tables ≡ w.tables

  abbrev Rows : Option ℕ → W → Type 0
  Rows none t = t.tables ≡ w.tables
  Rows (some n) t = (n ≡ count (is_rule id) w.tables.rules) × (t.tables ≡ gone w.tables)

  affected :
      (o : Option ℕ) (t : W)
      → Rows o t
      → OnValue Affected (E (server_error "删除失败")) (whether_affected o) t
  affected none t rows = refused 200 w IsErased _ t (λ e. absurd (omega (arith, e))) rows
  affected (some n) t rows = elim (Bool-cases (ltb 0 n)) [
    | inl more ↦ rw more ((λ e. ground (arith, more, e, rows.0)), rows.1)
    | inr zero_rows ↦
        let empty : count (is_rule id) w.tables.rules ≡ 0 = ground (arith, zero_rows, rows.0) in
        rw zero_rows (
          rows.1
          ∙ ap (with_rules w.tables)
              (update_where_none (is_rule id) (deleted env.now) w.tables.rules empty))
  ]
    where
      with_rules : ReplyTables → List AutoReplyRule → ReplyTables
      with_rules t rules = record t { rules = rules }

  soft_delete-Affected :
      (u : W)
      → u.tables ≡ w.tables
      → Ensures Affected E (or_fail (soft_delete env id) (server_error "删除失败") u)
  unfolding soft_delete update_rules
  soft_delete-Affected u e = Ensures-or_fail Affected E (soft_delete env id) _ u (
      Ensures->>= Rows _ E (statement env (update_rules id (deleted env.now))) _ u
        (Ensures-statement Rows E env (update_rules id (deleted env.now)) u e λ n t h. (
          sym (ap (λ p. p.0) (some_injective h)) ∙ ap (λ t. count (is_rule id) t.rules) e,
          sym (ap (λ p. p.1) (some_injective h)) ∙ ap gone e,
        ))
        λ o t rows. affected o t rows)

  decided :
      (b : Bool) (t : W)
      → Affected b t
      → Ensures {A = Unit {0}}
          (λ _ t. ⊥)
          E
          ((require b (not_found "回复规则不存在或已删除") >> respond (success 200 "已删除" none)) t)
  decided false t same = refused 200 w IsErased _ t (λ e. absurd (omega (arith, e))) same
  decided true t (there, tables) = (
    λ _. record {
      was = find-of-count id w.tables.rules there;
      views = λ j.
          ap (λ t. view t j) tables
          ∙ view-delete id (deleted env.now) w.tables j (λ x. refl) (λ x. refl);
    },
    λ n. absurd (n refl),
  )

  delete_reply-Ensures :
      parse_int param ≡ some id → Ensures (λ _ t. ⊥) E (delete_reply env param tenant w)
  unfolding delete_reply
  delete_reply-Ensures parsed = rw parsed (
      Ensures->> (λ _ t. t.tables ≡ w.tables) (λ _ t. ⊥) E (get_tenant_id tenant) _ w
        (get_tenant_id-Same 200 w IsErased tenant w (λ e. absurd (omega (arith, e)))
          (λ e. absurd (omega (arith, e))) refl)
        λ _ u same.
          Ensures->>= Affected (λ _ t. ⊥) E (or_fail (soft_delete env id) _) _ u
            (soft_delete-Affected u same) decided)

-- Delete refines the removal of an id from the map from ids to rules: it answers, and if it answers 200
-- the id named a rule and then names none, while every other rule is seen as before. With any other
-- answer the tables are as they were.
pub delete_reply-IsErased :
    (env : Env) (param : Text) (tenant : Option Value) (id : ℤ) (w : W)
    → parse_int param ≡ some id
    → (r : Response ReplyData) × (t : W) × (delete_reply env param tenant w ≡ stop r t)
      × Either 200 w (IsErased env param tenant id w) r t
delete_reply-IsErased env param tenant id w parsed =
    Ensures-answers (Either 200 w (IsErased env param tenant id w))
      (delete_reply env param tenant w) (delete_reply-Ensures env param tenant id w parsed)
