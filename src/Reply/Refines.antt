-- ===== src/Reply/Refines.antt =====
-- The handlers of internal/handler/api/reply.go against the map of Reply.Spec.
pub mod Rows
pub mod Update
pub mod Create
pub mod Delete
use weiyeston.Base.{
  ℕ, suc, Bool, true, false, Option, none, some, List, [], ◌∷◌, ◌++◌, ℤ, pos, Text, int_eq, nat_eq,
  ◌==◌, ◌≡◌, ◌≢◌, refl, sym, ap, ◌∙◌, arith, find, count, update_where, leb_ℤ, ltb, if◌then◌else◌,
  some_injective, Bool-cases, inl, inr, get_or, subst, String, find_sound, int_beq_iff,
}
use weiyeston.Keys.{IsNumbered, update_where_none}
use weiyeston.Strconv.{parse_int}
use weiyeston.Middleware.{Value, int64, float64, text, other}
use weiyeston.Http.{
  Env, Run, next, stop, ◌>>=◌, ◌>>◌, or_respond, or_invalid, or_fail, require, pure, respond,
  Response, success, failure, Bound, bound, invalid, statement,
}
use weiyeston.Http.Hoare.{
  Ensures, OnValue, Ensures-stop, Ensures->>=, Ensures->>, Ensures-or_fail,
  Ensures-or_respond_cases, Ensures-or_invalid, Ensures-require, Ensures-statement,
}
use weiyeston.Reply.{
  AutoReplyRule, ReplyTables, W, is_rule, insert_rule, update_rules, rewritten, deleted, stored,
  if_affected, whether_affected, get_by_id, create, update, soft_delete,
}
use weiyeston.Reply.Handlers.{
  H, ReplyVo, ReplyData, reply_vo, to_reply_vo, CreateReplyRequest, UpdateReplyRequest, given,
  new_rule, with_changes, get_tenant_id, create_reply, change_rule, update_reply, delete_reply,
  bad_request, not_found, server_error,
}
use weiyeston.Reply.Spec.{RuleMap, seen, view, put, erase}
use weiyeston.Reply.Refines.Rows.{view-insert, view-change, view-delete, id_of}

abbrev pub merged : UpdateReplyRequest → ReplyVo → ReplyVo
merged req v = record v {
  keyword = given req.keyword v.keyword;
  match_type = get_or req.match_type v.match_type;
  reply_type = get_or req.reply_type v.reply_type;
  reply_content = get_or req.reply_content v.reply_content;
  reply_title = given req.reply_title v.reply_title;
  reply_desc = given req.reply_desc v.reply_desc;
  reply_cover_url = given req.reply_cover_url v.reply_cover_url;
  reply_url = given req.reply_url v.reply_url;
  status = get_or req.status v.status;
  sort_order = get_or req.sort_order v.sort_order;
}

-- A handler either answers its success, with what that means, or leaves the tables.
abbrev pub Either : ℕ → W → (Response ReplyData → W → Type 0) → Response ReplyData → W → Type 0
Either status w Good r t =
    (r.status ≡ status → Good r t) × (r.status ≢ status → t.tables ≡ w.tables)

module _ (status : ℕ) (w : W) (Good : Response ReplyData → W → Type 0) where
  abbrev E : Response ReplyData → W → Type 0
  E = Either status w Good

  pub refused : (r : Response ReplyData) (t : W) → r.status ≢ status → t.tables ≡ w.tables → E r t
  refused r t n same = (λ e. absurd (n e), λ _. same)

  pub get_tenant_id-Same :
      (o : Option Value) (u : W)
      → 400 ≢ status
      → 401 ≢ status
      → u.tables ≡ w.tables
      → Ensures (λ _ t. t.tables ≡ w.tables) E (get_tenant_id o u)
  get_tenant_id-Same none u m n e = refused _ u n e
  get_tenant_id-Same (some (int64 v)) u m n e = e
  get_tenant_id-Same (some (float64 v)) u m n e = e
  get_tenant_id-Same (some (text v)) u m n e = refused _ u m e
  get_tenant_id-Same (some other) u m n e = refused _ u m e
