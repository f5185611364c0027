-- ===== src/Reply/Refines/Update.antt =====
-- Update of internal/handler/api/reply.go against the map of the rules.
use weiyeston.Base.{
  ℕ, suc, Bool, true, false, Option, none, some, List, ℤ, pos, Text, int_eq, nat_eq, ◌==◌, ◌≡◌,
  refl, sym, ap, ◌∙◌, arith, find, count, update_where, leb_ℤ, if◌then◌else◌, some_injective,
  Bool-cases, inl, inr, find_sound, int_beq_iff,
}
use weiyeston.Keys.{update_where_none}
use weiyeston.Strconv.{parse_int}
use weiyeston.Middleware.{Value}
use weiyeston.Http.{Env, next, stop, or_fail, Response, success, bound, statement}
use weiyeston.Http.Hoare.{
  Ensures, Ensures-answers, OnValue, Ensures->>=, Ensures->>, Ensures-or_fail, Ensures-statement,
}
use weiyeston.Reply.{
  AutoReplyRule, ReplyTables, W, is_rule, update_rules, rewritten, if_affected, get_by_id, update,
}
use weiyeston.Reply.Handlers.{
  ReplyVo, ReplyData, reply_vo, to_reply_vo, UpdateReplyRequest, with_changes, get_tenant_id,
  change_rule, update_reply, server_error,
}
use weiyeston.Reply.Spec.{seen, view, put}
use weiyeston.Reply.Refines.Rows.{view-change}
use weiyeston.Reply.Refines.{merged, Either, refused, get_tenant_id-Same}

module _ (env : Env) (param : Text) (tenant : Option Value) (req : UpdateReplyRequest) (id : ℤ)
    (w : W) where
  -- The rule of the id gets the fields of the request, and the answer shows it.
  pub record IsMerged (r : Response ReplyData) (t : W) : Type 0 where
    pub old : ReplyVo
    pub was : view w.tables id ≡ some old
    pub answered : r ≡ success 200 "ok" (some (reply_vo (merged req old)))
    pub views : (j : ℤ) → view t.tables j ≡ put (merged req old) (view w.tables) j

  abbrev E : Response ReplyData → W → Type 0
  E = Either 200 w IsMerged

  abbrev Row : Option AutoReplyRule → W → Type 0
  Row o t = (t.tables ≡ w.tables) × (find (is_rule id) w.tables.rules ≡ o)

  get_by_id-Row :
      (u : W)
      → u.tables ≡ w.tables
      → Ensures Row E (or_fail (get_by_id env id) (server_error "查询回复规则失败") u)
  unfolding get_by_id
  get_by_id-Row u e = Ensures-or_fail Row E (get_by_id env id) _ u (go (leb_ℤ id (pos 0)))
    where
      failed : (t : W) → t.tables ≡ w.tables → E (server_error "查询回复规则失败") t
      failed t same = refused 200 w IsMerged _ t (λ e. absurd (omega (arith, e))) same

      go :
          (b : Bool)
          → Ensures (OnValue Row (E (server_error "查询回复规则失败"))) E (
              if b then next none u else statement env (λ t. some (find (is_rule id) t.rules, t)) u)
      go true = failed u e
      go false =
          Ensures-statement (OnValue Row (E (server_error "查询回复规则失败"))) E env
            (λ t. some (find (is_rule id) t.rules, t)) u (failed (record u { sent = suc u.sent }) e)
            λ o t h. (
              sym (ap (λ p. p.1) (some_injective h)) ∙ e,
              ap (λ t. find (is_rule id) t.rules) (sym e) ∙ ap (λ p. p.0) (some_injective h),
            )

  module _ (rule : AutoReplyRule) (found : find (is_rule id) w.tables.rules ≡ some rule) where
    named : rule.id ≡ id
    named =
        let both = find_sound (is_rule id) w.tables.rules rule found in
        ground (arith, both, int_beq_iff rule.id id)

    abbrev change : AutoReplyRule → AutoReplyRule
    change = rewritten env.now (with_changes req rule)

    abbrev Rows : Option ℕ → W → Type 0
    Rows none t = t.tables ≡ w.tables
    Rows (some n) t =
        (n ≡ count (is_rule id) w.tables.rules)
        × (t.tables ≡ record w.tables { rules = update_where (is_rule id) change w.tables.rules })

    affected :
        (o : Option ℕ) (t : W)
        → Rows o t
        → OnValue
            (λ _ t.
              t.tables
              ≡ record w.tables { rules = update_where (is_rule id) change w.tables.rules })
            (E (server_error "更新回复规则失败"))
            (if_affected o)
            t
    affected none t rows = refused 200 w IsMerged _ t (λ e. absurd (omega (arith, e))) rows
    affected (some n) t rows = elim (Bool-cases (n == 0)) [
      | inl zero_rows ↦
          let empty : count (is_rule id) w.tables.rules ≡ 0 = ground (arith, zero_rows, rows.0) in
          rw zero_rows (
            refused 200 w IsMerged _ t (λ e. absurd (omega (arith, e)))
              (rows.1
                ∙ ap (with_rules w.tables)
                    (update_where_none (is_rule id) change w.tables.rules empty)))
      | inr some_rows ↦ rw some_rows rows.1
    ]
      where
        with_rules : ReplyTables → List AutoReplyRule → ReplyTables
        with_rules t rules = record t { rules = rules }

    update-Ensures :
        (u : W)
        → u.tables ≡ w.tables
        → Ensures
            (λ _ t.
              t.tables
              ≡ record w.tables { rules = update_where (is_rule id) change w.tables.rules })
            E
            (or_fail (update env (with_changes req rule)) (server_error "更新回复规则失败") u)
    unfolding update update_rules
    update-Ensures u e = Ensures-or_fail _ E (update env (with_changes req rule)) _ u (
        Ensures->>= Rows _ E (statement env (update_rules rule.id change)) _ u
          (Ensures-statement Rows E env (update_rules rule.id change) u e λ n t h. (
            sym (ap (λ p. p.0) (some_injective h))
                ∙ ap (λ t. count (is_rule rule.id) t.rules) e
                ∙ ap (λ i. count (is_rule i) w.tables.rules) named,
            sym (ap (λ p. p.1) (some_injective h))
                ∙ ap (updated rule.id) e
                ∙ ap (λ i. updated i w.tables) named,
          ))
          λ o t rows. affected o t rows)
      where
        updated : ℤ → ReplyTables → ReplyTables
        updated i t = record t { rules = update_where (is_rule i) change t.rules }

  change_rule-Ensures :
      (o : Option AutoReplyRule) (u : W)
      → Row o u
      → Ensures (λ _ t. ⊥) E (change_rule env param tenant (bound req) o u)
  unfolding change_rule
  change_rule-Ensures none u row = refused 200 w IsMerged _ u (λ e. absurd (omega (arith, e))) row.0
  change_rule-Ensures (some rule) u row =
      Ensures->>
        (λ _ t. t.tables ≡ record w.tables {
          rules = update_where (is_rule id) (change rule row.1) w.tables.rules;
        })
        (λ _ t. ⊥) E (or_fail (update env (with_changes req rule)) _) _ u
        (update-Ensures rule row.1 u row.0)
        λ _ t tables. (
          λ _. record {
            old = to_reply_vo rule;
            was = ap seen row.1;
            answered = refl;
            views = λ j.
                ap (λ t. view t j) tables
                ∙ view-change id (change rule row.1) w.tables j rule (λ x. refl) (λ x. refl) row.1;
          },
          λ n. absurd (n refl),
        )

  update_reply-Ensures :
      parse_int param ≡ some id → Ensures (λ _ t. ⊥) E (update_reply env param tenant (bound req) w)
  unfolding update_reply
  update_reply-Ensures parsed = rw parsed (
      Ensures->> (λ _ t. t.tables ≡ w.tables) (λ _ t. ⊥) E (get_tenant_id tenant) _ w
        (get_tenant_id-Same 200 w IsMerged tenant w (λ e. absurd (omega (arith, e)))
          (λ e. absurd (omega (arith, e))) refl)
        λ _ u same.
          Ensures->>= Row (λ _ t. ⊥) E (or_fail (get_by_id env id) _) _ u (get_by_id-Row u same)
            λ o v row. change_rule-Ensures o v row)

-- Update refines the overriding of one rule in the map from ids to rules: it answers, and if it answers
-- 200 the id named a rule, which a reader then sees with the fields of the request in place of its
-- own, as the answer shows it, while every other rule is seen as before. With any other answer the
-- tables are as they were.
pub update_reply-IsMerged :
    (env : Env) (param : Text) (tenant : Option Value) (req : UpdateReplyRequest) (id : ℤ) (w : W)
    → parse_int param ≡ some id
    → (r : Response ReplyData) × (t : W) × (update_reply env param tenant (bound req) w ≡ stop r t)
      × Either 200 w (IsMerged env param tenant req id w) r t
update_reply-IsMerged env param tenant req id w parsed =
    Ensures-answers (Either 200 w (IsMerged env param tenant req id w))
      (update_reply env param tenant (bound req) w)
      (update_reply-Ensures env param tenant req id w parsed)
