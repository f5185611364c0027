-- ===== src/Vote/Views.antt =====
-- The view objects of internal/handler/api/vote.go.
use weiyeston.Base.{
  ℕ, ◌+◌, Option, List, [], ◌∷◌, ℤ, pos, Text, int_eq, ◌==◌, if◌then◌else◌, String, map,
}
use weiyeston.Vote.{Vote, VoteOption}

pub record VoteOptionVo : Type 0 where
  pub id : ℤ
  pub vote_id : ℤ
  pub content : Text
  pub image_url : Option Text
  pub sort_order : ℤ
  pub vote_count : ℕ

pub record VoteVo : Type 0 where
  pub id : ℤ
  pub account_id : ℤ
  pub title : Text
  pub description : Option Text
  pub cover_url : Option Text
  pub vote_type : ℤ
  pub max_choices : ℤ
  pub max_votes : ℤ
  pub start_time : Option ℕ
  pub end_time : Option ℕ
  pub total_votes : ℕ
  pub status : ℤ
  pub status_text : String
  pub options : List VoteOptionVo
  pub created_at : ℕ
  pub updated_at : ℕ

pub record VoteResultVo : Type 0 where
  pub vote_id : ℤ
  pub title : Text
  pub total : ℕ
  pub options : List VoteOptionVo

pub data Payload : Type 0 where
  vote_vo : VoteVo → Payload
  result_vo : VoteResultVo → Payload
  vote_list : List VoteVo → (page page_size : ℤ) → Payload

unfoldable pub status_text : ℤ → String
status_text s =
    if s == pos 0 then "草稿" else if s == pos 1 then "进行中" else if s == pos 2 then "已结束" else "草稿"

abbrev pub to_option_vo : VoteOption → VoteOptionVo
to_option_vo o = record {
  id = o.id;
  vote_id = o.vote_id;
  content = o.content;
  image_url = o.image_url;
  sort_order = o.sort_order;
  vote_count = o.vote_count;
}

unfoldable pub to_vote_vo : Vote → List VoteOption → VoteVo
to_vote_vo v options = record {
  id = v.id;
  account_id = v.account_id;
  title = v.title;
  description = v.description;
  cover_url = v.cover_url;
  vote_type = v.vote_type;
  max_choices = v.max_choices;
  max_votes = v.max_votes;
  start_time = v.start_time;
  end_time = v.end_time;
  total_votes = v.total_votes;
  status = v.status;
  status_text = status_text v.status;
  options = map to_option_vo options;
  created_at = v.created_at;
  updated_at = v.updated_at;
}

-- The loop that adds the counters up.
unfoldable pub total_of : List VoteOption → ℕ
total_of [] = 0
total_of (o ∷ os) = o.vote_count + total_of os

unfoldable pub to_result_vo : Vote → List VoteOption → VoteResultVo
to_result_vo v options = record {
  vote_id = v.id;
  title = v.title;
  total = total_of options;
  options = map to_option_vo options;
}
