-- ===== src/Reply/Refines/Create.antt =====
-- Create of internal/handler/api/reply.go against the map of the rules.
use weiyeston.Base.{
  suc, Option, none, some, [], ◌∷◌, ◌++◌, ℤ, pos, Text, int_eq, nat_eq, ◌==◌, if◌then◌else◌, ◌≡◌,
  refl, sym, ap, ◌∙◌, arith, some_injective, Bool-cases, inl, inr, subst, All-append,
}
use weiyeston.Keys.{IsNumbered, IsNumbered-suc}
use weiyeston.Strconv.{parse_int}
use weiyeston.Middleware.{Value}
use weiyeston.Http.{Env, stop, or_fail, Response, success, bound, statement}
use weiyeston.Http.Hoare.{
  Ensures, Ensures-answers, OnValue, Ensures->>=, Ensures->>, Ensures-or_fail, Ensures-statement,
}
use weiyeston.Reply.{AutoReplyRule, ReplyTables, W, insert_rule, stored, create}
use weiyeston.Reply.Handlers.{
  ReplyVo, ReplyData, reply_vo, to_reply_vo, CreateReplyRequest, new_rule, get_tenant_id,
  create_reply, server_error,
}
use weiyeston.Reply.Spec.{seen, view, put}
use weiyeston.Reply.Refines.Rows.{view-insert, id_of, find-fresh}
use weiyeston.Reply.Refines.{Either, refused, get_tenant_id-Same}

-- The fields of a request under an id; a status of 0 becomes 1.
abbrev pub of_request : ℤ → ℤ → CreateReplyRequest → ReplyVo
of_request account_id id req = record {
  id = id;
  account_id = account_id;
  keyword = req.keyword;
  match_type = req.match_type;
  reply_type = req.reply_type;
  reply_content = req.reply_content;
  reply_title = req.reply_title;
  reply_desc = req.reply_desc;
  reply_cover_url = req.reply_cover_url;
  reply_url = req.reply_url;
  status = if req.status == pos 0 then pos 1 else req.status;
  sort_order = req.sort_order;
}

module _ (env : Env) (param : Text) (tenant : Option Value) (req : CreateReplyRequest)
    (account_id : ℤ) (w : W) where
  -- The rule of the request is put under a new id, and the answer shows it.
  pub record IsPut (r : Response ReplyData) (t : W) : Type 0 where
    pub id : ℤ
    pub free : view w.tables id ≡ none
    pub answered : r ≡ success 201 "ok" (some (reply_vo (of_request account_id id req)))
    pub views : (j : ℤ) → view t.tables j ≡ put (of_request account_id id req) (view w.tables) j
    pub numbered : IsNumbered id_of t.tables.next_rule t.tables.rules

  abbrev E : Response ReplyData → W → Type 0
  E = Either 201 w IsPut

  abbrev rule : AutoReplyRule
  rule = new_rule account_id req

  abbrev Inserted : AutoReplyRule → W → Type 0
  Inserted a t =
      (a ≡ stored env.now rule w.tables)
      × (t.tables ≡ record w.tables {
        rules = w.tables.rules ++ stored env.now rule w.tables ∷ [];
        next_rule = suc w.tables.next_rule;
      })

  insert_rule-Inserted :
      (t : ReplyTables) (a : AutoReplyRule) (u : ReplyTables)
      → insert_rule env.now rule t ≡ some (a, u)
      → (a ≡ stored env.now rule t)
        × (u ≡ record t {
          rules = t.rules ++ stored env.now rule t ∷ [];
          next_rule = suc t.next_rule;
        })
  unfolding insert_rule
  insert_rule-Inserted t a u h = elim (Bool-cases (t.is_account account_id)) [
    | inl known ↦
        let e = rw known at h in
        (sym (ap (λ p. p.0) (some_injective e)), sym (ap (λ p. p.1) (some_injective e)))
    | inr unknown ↦ let clash = rw unknown at h in cc
  ]

  create-Inserted :
      (u : W)
      → u.tables ≡ w.tables
      → Ensures Inserted E (or_fail (create env rule) (server_error "创建回复规则失败") u)
  unfolding create
  create-Inserted u same =
      Ensures-or_fail Inserted E (statement env (insert_rule env.now rule)) _ u (
        Ensures-statement (OnValue Inserted (E (server_error "创建回复规则失败"))) E env
          (insert_rule env.now rule) u
          (refused 201 w IsPut _ (record u { sent = suc u.sent }) (λ e. absurd (omega (arith, e)))
            same)
          λ a t h.
            insert_rule-Inserted w.tables a t
              (subst (λ x. insert_rule env.now rule x ≡ some (a, t)) same h))

  create_reply-Ensures :
      parse_int param ≡ some account_id
      → IsNumbered id_of w.tables.next_rule w.tables.rules
      → Ensures (λ _ t. ⊥) E (create_reply env param tenant (bound req) w)
  unfolding create_reply
  create_reply-Ensures parsed numbered = rw parsed (
      Ensures->> (λ _ t. t.tables ≡ w.tables) (λ _ t. ⊥) E (get_tenant_id tenant) _ w
        (get_tenant_id-Same 201 w IsPut tenant w (λ e. absurd (omega (arith, e)))
          (λ e. absurd (omega (arith, e))) refl)
        λ _ u same.
          Ensures->>= Inserted (λ _ t. ⊥) E (or_fail (create env rule) _) _ u
            (create-Inserted u same)
            λ a t (made, tables). (
              λ _. record {
                id = pos w.tables.next_rule;
                free = ap seen (find-fresh w.tables.next_rule w.tables.rules numbered);
                answered = ap (λ a. success 201 "ok" (some (reply_vo (to_reply_vo a)))) made;
                views =
                    λ j. ap (λ t. view t j) tables ∙ view-insert env.now rule w.tables j numbered;
                numbered =
                    subst (λ t. IsNumbered id_of t.next_rule t.rules) (sym tables)
                      (All-append _ w.tables.rules (stored env.now rule w.tables ∷ [])
                        (IsNumbered-suc id_of w.tables.next_rule w.tables.rules numbered)
                        (ground arith, tt));
              },
              λ n. absurd (n refl),
            ))

-- Create refines the putting of a rule under a new id in the map from ids to rules: with a numeric
-- account, a body that binds and ids below the next id, it answers; if it answers 201, a rule with the
-- fields of the request, but with status 1 where the request has 0, is seen under an id that named none,
-- as the answer shows it, every other rule is seen as before, and ids are still below the next. With any
-- other answer the tables are as they were.
pub create_reply-IsPut :
    (env : Env) (param : Text) (tenant : Option Value) (req : CreateReplyRequest) (account_id : ℤ)
    (w : W)
    → parse_int param ≡ some account_id
    → IsNumbered id_of w.tables.next_rule w.tables.rules
    → (r : Response ReplyData) × (t : W) × (create_reply env param tenant (bound req) w ≡ stop r t)
      × Either 201 w (IsPut env param tenant req account_id w) r t
create_reply-IsPut env param tenant req account_id w parsed numbered =
    Ensures-answers (Either 201 w (IsPut env param tenant req account_id w))
      (create_reply env param tenant (bound req) w)
      (create_reply-Ensures env param tenant req account_id w parsed numbered)
