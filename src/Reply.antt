-- ===== src/Reply.antt =====
-- internal/model/reply.go and internal/repository/reply/reply.go: the table auto_reply_rules under the
-- statements and methods of Repo. A statement is `none` where the account's foreign key refuses it.
pub mod Handlers
pub mod Spec
pub mod Refines
pub mod Listed
mod Tests
use weiyeston.Base.{
  ℕ, suc, Bool, ◌&&◌, ◌||◌, Option, none, some, is_none, List, [], ◌∷◌, ◌++◌, ℤ, pos, Text, int_eq,
  nat_eq, ◌==◌, find, filter, count, update_where, sort_by, ltb, ltb_ℤ, leb_ℤ, if◌then◌else◌,
}
use weiyeston.Http.{Env, World, Run, next, statement, ◌>>=◌, pure}

pub record AutoReplyRule : Type 0 where
  pub id : ℤ
  pub account_id : ℤ
  pub keyword : Option Text
  pub match_type : ℤ
  pub reply_type : ℤ
  pub reply_content : Text
  pub reply_title : Option Text
  pub reply_desc : Option Text
  pub reply_cover_url : Option Text
  pub reply_url : Option Text
  pub status : ℤ
  pub sort_order : ℤ
  pub deleted_at : Option ℕ
  pub created_at : ℕ
  pub updated_at : ℕ

pub record ReplyTables : Type 0 where
  pub rules : List AutoReplyRule
  pub next_rule : ℕ
  pub is_account : ℤ → Bool

abbrev pub W : Type 0
W = World ReplyTables (Unit {0})

abbrev pub is_rule : ℤ → AutoReplyRule → Bool
is_rule id r = r.id == id && is_none r.deleted_at

abbrev pub is_rule_of : ℤ → AutoReplyRule → Bool
is_rule_of account_id r = r.account_id == account_id && is_none r.deleted_at

-- ORDER BY sort_order ASC, id ASC.
abbrev pub comes_first : AutoReplyRule → AutoReplyRule → Bool
comes_first a b = ltb_ℤ a.sort_order b.sort_order || a.sort_order == b.sort_order && ltb_ℤ a.id b.id

unfoldable pub select_rules : ℤ → List AutoReplyRule → List AutoReplyRule
select_rules account_id rules = sort_by comes_first (filter (is_rule_of account_id) rules)

abbrev pub stored : ℕ → AutoReplyRule → ReplyTables → AutoReplyRule
stored now r t = record r {
  id = pos t.next_rule;
  deleted_at = none;
  created_at = now;
  updated_at = now;
}

-- SET … of Update.
abbrev pub rewritten : ℕ → AutoReplyRule → AutoReplyRule → AutoReplyRule
rewritten now r old = record r {
  id = old.id;
  account_id = old.account_id;
  deleted_at = old.deleted_at;
  created_at = old.created_at;
  updated_at = now;
}

abbrev pub deleted : ℕ → AutoReplyRule → AutoReplyRule
deleted now r = record r { deleted_at = some now; updated_at = now }

unfoldable pub insert_rule : ℕ → AutoReplyRule → ReplyTables → Option (AutoReplyRule × ReplyTables)
insert_rule now r t =
    if t.is_account r.account_id
    then some (
      stored now r t,
      record t { rules = t.rules ++ stored now r t ∷ []; next_rule = suc t.next_rule },
    )
    else none

-- The rows affected, and the tables.
unfoldable pub update_rules :
    ℤ → (AutoReplyRule → AutoReplyRule) → ReplyTables → Option (ℕ × ReplyTables)
update_rules id change t =
    some (count (is_rule id) t.rules, record t { rules = update_where (is_rule id) change t.rules })

abbrev pub if_affected : Option ℕ → Option (Unit {0})
if_affected none = none
if_affected (some rows) = if rows == 0 then none else some tt

abbrev pub whether_affected : Option ℕ → Option Bool
whether_affected none = none
whether_affected (some rows) = some (ltb 0 rows)

module _ {D : Type 0} (env : Env) where
  -- An id that is not positive is an error with no statement sent.
  unfoldable pub list_by_account_id : ℤ → W → Run W D (Option (List AutoReplyRule))
  list_by_account_id account_id w =
      if leb_ℤ account_id (pos 0)
      then next none w
      else statement env (λ t. some (select_rules account_id t.rules, t)) w

  unfoldable pub get_by_id : ℤ → W → Run W D (Option (Option AutoReplyRule))
  get_by_id id w =
      if leb_ℤ id (pos 0)
      then next none w
      else statement env (λ t. some (find (is_rule id) t.rules, t)) w

  unfoldable pub create : AutoReplyRule → W → Run W D (Option AutoReplyRule)
  create r = statement env (insert_rule env.now r)

  unfoldable pub update : AutoReplyRule → W → Run W D (Option (Unit {0}))
  update r = do
    rows ← statement env (update_rules r.id (rewritten env.now r))
    pure (if_affected rows)

  unfoldable pub soft_delete : ℤ → W → Run W D (Option Bool)
  soft_delete id = do
    rows ← statement env (update_rules id (deleted env.now))
    pure (whether_affected rows)
