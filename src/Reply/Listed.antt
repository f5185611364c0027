-- ===== src/Reply/Listed.antt =====
-- List of internal/handler/api/reply.go.
use weiyeston.Base.{
  suc, Bool, true, false, ◌&&◌, Option, none, some, List, ℤ, pos, Text, int_eq, int_beq_iff, ltb_ℤ,
  is_none, ◌==◌, Ordered, Ordered-map, IsSorted-Ordered, map, filter, count, IsSorted,
  sort_by-IsSorted, count-sort_by, count-filter, leb_ℤ, ◌≡◌, refl, sym, ap, ◌∙◌, arith,
  if◌then◌else◌, some_injective, subst,
}
use weiyeston.Strconv.{parse_int}
use weiyeston.Middleware.{Value}
use weiyeston.Http.{Env, next, stop, or_fail, Response, success, statement}
use weiyeston.Http.Hoare.{
  Ensures, OnValue, Ensures-answers, Ensures->>=, Ensures->>, Ensures-or_fail, Ensures-statement,
}
use weiyeston.Reply.{AutoReplyRule, W, is_rule_of, comes_first, select_rules, list_by_account_id}
use weiyeston.Reply.Handlers.{ReplyData, reply_list, to_reply_vo, get_tenant_id, list, server_error}
use weiyeston.Reply.Refines.{Either, refused, get_tenant_id-Same}

-- A rule may stand in front of another: its sort order is not higher and, at the same sort order, its id
-- is not higher.
pub record MayPrecede (a b : AutoReplyRule) : Type 0 where
  pub order : ltb_ℤ b.sort_order a.sort_order ≡ false
  pub tie : b.sort_order ≡ a.sort_order → ltb_ℤ b.id a.id ≡ false

comes_first_trans :
    (x y z : AutoReplyRule)
    → comes_first y x ≡ false
    → comes_first z y ≡ false
    → comes_first z x ≡ false
comes_first_trans x y z h k = ground (arith, h, k)

comes_first-MayPrecede : (a b : AutoReplyRule) → comes_first b a ≡ false → MayPrecede a b
comes_first-MayPrecede a b h = record {
  order = ground (arith, h);
  tie = λ e. ground (arith, h, int_beq_iff b.sort_order a.sort_order);
}

module _ (env : Env) (param : Text) (tenant : Option Value) (account_id : ℤ) (w : W) where
  -- The live rules of the account, each as often as in the table, by sort order and then by id.
  pub record IsListed (r : Response ReplyData) (t : W) : Type 0 where
    pub rules : List AutoReplyRule
    pub answered : r ≡ success 200 "ok" (some (reply_list (map to_reply_vo rules)))
    pub sorted : Ordered MayPrecede rules
    pub counts :
        (p : AutoReplyRule → Bool)
        → count p rules
          ≡ count (λ x. (x.account_id == account_id && is_none x.deleted_at) && p x) w.tables.rules
    pub tables : t.tables ≡ w.tables

  abbrev E : Response ReplyData → W → Type 0
  E = Either 200 w IsListed

  comes_first_asymmetric : (a b : AutoReplyRule) → comes_first a b ≡ true → comes_first b a ≡ false
  comes_first_asymmetric a b h = ground (arith, h)

  abbrev Selected : List AutoReplyRule → W → Type 0
  Selected rules t = (t.tables ≡ w.tables) × (select_rules account_id w.tables.rules ≡ rules)

  list_by_account_id-Selected :
      (u : W)
      → u.tables ≡ w.tables
      → Ensures Selected E
          (or_fail (list_by_account_id env account_id) (server_error "查询回复规则列表失败") u)
  unfolding list_by_account_id
  list_by_account_id-Selected u e =
      Ensures-or_fail Selected E (list_by_account_id env account_id) _ u
        (go (leb_ℤ account_id (pos 0)))
    where
      failed : (t : W) → t.tables ≡ w.tables → E (server_error "查询回复规则列表失败") t
      failed t same = refused 200 w IsListed _ t (λ e. absurd (omega (arith, e))) same

      go :
          (b : Bool)
          → Ensures (OnValue Selected (E (server_error "查询回复规则列表失败"))) E (
              if b
              then next none u
              else statement env (λ t. some (select_rules account_id t.rules, t)) u)
      go true = failed u e
      go false =
          Ensures-statement (OnValue Selected (E (server_error "查询回复规则列表失败"))) E env
            (λ t. some (select_rules account_id t.rules, t)) u
            (failed (record u { sent = suc u.sent }) e)
            λ o t h. (
              sym (ap (λ p. p.1) (some_injective h)) ∙ e,
              ap (λ t. select_rules account_id t.rules) (sym e) ∙ ap (λ p. p.0) (some_injective h),
            )

  listed :
      (rules : List AutoReplyRule) (t : W)
      → Selected rules t
      → IsListed (success 200 "ok" (some (reply_list (map to_reply_vo rules)))) t
  unfolding select_rules
  listed rules t (tables, same) = record {
    rules = rules;
    answered = refl;
    sorted = Ordered-map comes_first-MayPrecede rules (
        IsSorted-Ordered comes_first rules comes_first_trans (
          subst (IsSorted comes_first) same (
            sort_by-IsSorted comes_first (filter (is_rule_of account_id) w.tables.rules)
              comes_first_asymmetric)));
    counts = λ p.
        ap (count p) (sym same)
        ∙ count-sort_by p comes_first (filter (is_rule_of account_id) w.tables.rules)
        ∙ count-filter p (is_rule_of account_id) w.tables.rules;
    tables = tables;
  }

  list-Ensures : parse_int param ≡ some account_id → Ensures (λ _ t. ⊥) E (list env param tenant w)
  unfolding list
  list-Ensures parsed = rw parsed (
      Ensures->> (λ _ t. t.tables ≡ w.tables) (λ _ t. ⊥) E (get_tenant_id tenant) _ w
        (get_tenant_id-Same 200 w IsListed tenant w (λ e. absurd (omega (arith, e)))
          (λ e. absurd (omega (arith, e))) refl)
        λ _ u same.
          Ensures->>= Selected (λ _ t. ⊥) E (or_fail (list_by_account_id env account_id) _) _ u
            (list_by_account_id-Selected u same)
            λ rules t selected. (λ _. listed rules t selected, λ n. absurd (n refl)))

-- With a numeric account, List answers, and if it answers 200 the list has the rules of the account that
-- are not deleted, each as often as the table has it; no rule stands behind one with a higher sort order,
-- or with the same sort order and a higher id. Whatever the answer, the tables are as they were.
pub list-IsListed :
    (env : Env) (param : Text) (tenant : Option Value) (account_id : ℤ) (w : W)
    → parse_int param ≡ some account_id
    → (r : Response ReplyData) × (t : W) × (list env param tenant w ≡ stop r t)
      × Either 200 w (IsListed env param tenant account_id w) r t
list-IsListed env param tenant account_id w parsed =
    Ensures-answers (Either 200 w (IsListed env param tenant account_id w))
      (list env param tenant w) (list-Ensures env param tenant account_id w parsed)
