-- ===== src/Reply/Tests.antt =====
-- The theorems on automatic replies at a concrete table.
use weiyeston.Base.{true, false, none, some, [], ◌∷◌, pos, codes, ◌≡◌, refl}
use weiyeston.Http.{Env, Response, bound, stop}
use weiyeston.Strconv.{parse_int, parse_uint, scan}
use weiyeston.Middleware.{int64}
use weiyeston.Reply.{AutoReplyRule, W}
use weiyeston.Reply.Handlers.{
  ReplyData, CreateReplyRequest, UpdateReplyRequest, list, create_reply, update_reply, delete_reply,
}
use weiyeston.Reply.Refines.{Either}
use weiyeston.Reply.Refines.Update.{IsMerged, update_reply-IsMerged}
use weiyeston.Reply.Refines.Create.{IsPut, create_reply-IsPut}
use weiyeston.Reply.Refines.Delete.{IsErased, delete_reply-IsErased}
use weiyeston.Reply.Listed.{IsListed, list-IsListed}

abbrev greeting : AutoReplyRule
greeting = record {
  id = pos 1;
  account_id = pos 7;
  keyword = some (codes "hi");
  match_type = pos 0;
  reply_type = pos 1;
  reply_content = codes "hello";
  reply_title = none;
  reply_desc = none;
  reply_cover_url = none;
  reply_url = none;
  status = pos 1;
  sort_order = pos 0;
  deleted_at = none;
  created_at = 1;
  updated_at = 1;
}

abbrev shop : W
shop = record {
  tables = record { rules = greeting ∷ []; next_rule = 2; is_account = λ id. true };
  sent = 0;
  store = tt;
}

abbrev now : Env
now = record { now = 5; fails = λ n. false }

abbrev farewell : CreateReplyRequest
farewell = record {
  keyword = some (codes "bye");
  match_type = pos 0;
  reply_type = pos 1;
  reply_content = codes "see you";
  reply_title = none;
  reply_desc = none;
  reply_cover_url = none;
  reply_url = none;
  status = pos 0;
  sort_order = pos 0;
}

abbrev disable : UpdateReplyRequest
disable = record {
  keyword = none;
  match_type = none;
  reply_type = none;
  reply_content = none;
  reply_title = none;
  reply_desc = none;
  reply_cover_url = none;
  reply_url = none;
  status = some (pos 0);
  sort_order = none;
}

one_parsed : parse_int (codes "1") ≡ some (pos 1)
unfolding parse_int parse_uint scan
one_parsed = refl

seven_parsed : parse_int (codes "7") ≡ some (pos 7)
unfolding parse_int parse_uint scan
seven_parsed = refl

update_reply-IsMerged_example :
    (r : Response ReplyData) × (t : W) × (update_reply now
        (codes "1")
        (some (int64 (pos 9)))
        (bound disable)
        shop
      ≡ stop r t)
    × Either 200 shop (IsMerged now (codes "1") (some (int64 (pos 9))) disable (pos 1) shop) r t
update_reply-IsMerged_example =
    update_reply-IsMerged now (codes "1") (some (int64 (pos 9))) disable (pos 1) shop one_parsed

create_reply-IsPut_example :
    (r : Response ReplyData) × (t : W) × (create_reply now
        (codes "7")
        (some (int64 (pos 9)))
        (bound farewell)
        shop
      ≡ stop r t)
    × Either 201 shop (IsPut now (codes "7") (some (int64 (pos 9))) farewell (pos 7) shop) r t
create_reply-IsPut_example =
    create_reply-IsPut now (codes "7") (some (int64 (pos 9))) farewell (pos 7) shop seven_parsed
      (refl, tt)

delete_reply-IsErased_example :
    (r : Response ReplyData) × (t : W) × (delete_reply now (codes "1") (some (int64 (pos 9))) shop
      ≡ stop r t)
    × Either 200 shop (IsErased now (codes "1") (some (int64 (pos 9))) (pos 1) shop) r t
delete_reply-IsErased_example =
    delete_reply-IsErased now (codes "1") (some (int64 (pos 9))) (pos 1) shop one_parsed

list-IsListed_example :
    (r : Response ReplyData) × (t : W) × (list now (codes "7") (some (int64 (pos 9))) shop
      ≡ stop r t)
    × Either 200 shop (IsListed now (codes "7") (some (int64 (pos 9))) (pos 7) shop) r t
list-IsListed_example =
    list-IsListed now (codes "7") (some (int64 (pos 9))) (pos 7) shop seven_parsed
