-- ===== src/Vote.antt =====
-- internal/model/vote.go: the rows of the three tables of the voting feature.
pub mod Statements
pub mod Repo
pub mod Views
pub mod Handlers
pub mod Submit
pub mod Accepted
pub mod Counters
pub mod Tally
pub mod Invariant
pub mod Limits
pub mod Update
pub mod Page
mod Tests
use weiyeston.Base.{ℕ, Bool, Option, List, ℤ, Text}

-- `votes`. Times are in nanoseconds; total_votes only counts up from 0.
pub record Vote : Type 0 where
  pub id : ℤ
  pub account_id : ℤ
  pub title : Text
  pub description : Option Text
  pub cover_url : Option Text
  pub vote_type : ℤ
  pub max_choices : ℤ
  pub max_votes : ℤ
  pub start_time : Option ℕ
  pub end_time : Option ℕ
  pub total_votes : ℕ
  pub status : ℤ
  pub deleted_at : Option ℕ
  pub created_at : ℕ
  pub updated_at : ℕ

-- `vote_options`.
pub record VoteOption : Type 0 where
  pub id : ℤ
  pub vote_id : ℤ
  pub content : Text
  pub image_url : Option Text
  pub sort_order : ℤ
  pub vote_count : ℕ

-- `vote_records`.
pub record VoteRecord : Type 0 where
  pub id : ℤ
  pub vote_id : ℤ
  pub option_id : ℤ
  pub openid : Text
  pub ip_address : Option Text
  pub user_agent : Option Text
  pub created_at : ℕ

-- The tables, the next numbers of their BIGSERIAL ids, and which account ids `wechat_accounts` has.
pub record VoteTables : Type 0 where
  pub votes : List Vote
  pub options : List VoteOption
  pub records : List VoteRecord
  pub next_vote : ℕ
  pub next_option : ℕ
  pub next_record : ℕ
  pub is_account : ℤ → Bool
