-- ===== src/Vote/Tests.antt =====
-- Runs of the voting handlers, and their theorems at concrete inputs.
use weiyeston.Base.{
  ◌+◌, ◌≤◌, ◌<◌, false, none, some, List, [], ◌∷◌, ℤ, pos, ◌==◌, text_eq, int_eq, nat_eq, codes,
  find, count, ◌≡◌, refl, arith, any, filter, update_where, text_beq, map,
}
use weiyeston.Http.{Env, Response, stop, bound, success, after, status_of}
use weiyeston.Strconv.{parse_int, parse_uint, scan}
use weiyeston.Middleware.{int64}
use weiyeston.Vote.{Vote, VoteOption}
use weiyeston.Vote.Statements.{
  insert_record, count_option, count_vote, merge_vote, update_votes, delete_options, insert_option,
}
use weiyeston.Vote.Views.{Payload}
use weiyeston.Vote.Repo.{
  W, get_vote, count_votes_by_user, submit_vote, update_vote, delete_options_by_vote_id,
  create_option,
}
use weiyeston.Vote.Update.{merge-vote_changes}
use weiyeston.Vote.Handlers.{
  SubmitVoteRequest, UpdateVoteRequest, submit, update, find_vote, check_ballot, check_quota,
  check_count, record_choices, vote_changes, replace_options, create_options,
}
use weiyeston.Vote.Submit.{ballots}
use weiyeston.Vote.Accepted.{IsAnswered, submit-IsAnswered}
use weiyeston.Vote.Counters.{IsCounted}
use weiyeston.Vote.Invariant.{Request, serve, serve-IsCounted, to_submit}
use weiyeston.Vote.Limits.{submit-limit}
use weiyeston.Base.{filter}
use weiyeston.Strconv.{atoi, scan_digits, scan_or_max}
use weiyeston.Vote.Page.{
  list_votes, page_of, size_of, select_votes, AreNewest, first_pages-AreNewest,
}

abbrev lunch : Vote
lunch = record {
  id = pos 1;
  account_id = pos 3;
  title = codes "lunch";
  description = none;
  cover_url = none;
  vote_type = pos 1;
  max_choices = pos 1;
  max_votes = pos 1;
  start_time = none;
  end_time = some 900;
  total_votes = 0;
  status = pos 1;
  deleted_at = none;
  created_at = 0;
  updated_at = 0;
}

abbrev dish : ℤ → VoteOption
dish id = record {
  id = id;
  vote_id = pos 1;
  content = codes "dish";
  image_url = none;
  sort_order = pos 0;
  vote_count = 0;
}

abbrev kitchen : W
kitchen = record {
  tables = record {
    votes = lunch ∷ [];
    options = dish (pos 10) ∷ dish (pos 11) ∷ [];
    records = [];
    next_vote = 2;
    next_option = 12;
    next_record = 1;
    is_account = λ id. id == pos 3;
  };
  sent = 0;
  store = tt;
}

abbrev noon : Env
noon = record { now = 720; fails = λ n. false }

abbrev choice : SubmitVoteRequest
choice = record { option_ids = pos 10 ∷ []; openid = codes "ann" }

abbrev voted : W
voted = after (submit noon (codes "1") (bound choice) kitchen)

second_vote_refused : status_of (submit noon (codes "1") (bound choice) voted) ≡ some 400
unfolding submit parse_int parse_uint scan find_vote check_ballot check_quota check_count
    record_choices get_vote count_votes_by_user submit_vote insert_record count_option count_vote
    find any count update_where text_beq
second_vote_refused = refl

id_parsed : parse_int (codes "1") ≡ some (pos 1)
unfolding parse_int parse_uint scan
id_parsed = refl

submit-IsAnswered_example :
    (r : Response Payload) × (t : W) × (submit noon (codes "1") (bound choice) kitchen ≡ stop r t)
    × IsAnswered noon (pos 1) choice kitchen r t
submit-IsAnswered_example = submit-IsAnswered noon (codes "1") (pos 1) choice kitchen id_parsed

kitchen-IsCounted : IsCounted kitchen.tables
unfolding count
kitchen-IsCounted = record { options = (omega arith, (omega arith, tt)); votes = (omega arith, tt) }

-- The fourth statement of the server, a counter's, fails.
abbrev two_votes : List (Env × Request)
two_votes =
    (record noon { fails = λ n. n == 3 }, to_submit (codes "1") (bound choice))
    ∷ (noon, to_submit (codes "1") (bound choice))
    ∷ []

serve-IsCounted_example : IsCounted (serve two_votes kitchen).tables
serve-IsCounted_example = serve-IsCounted two_votes kitchen kitchen-IsCounted

submit-limit_example :
    (ballots (pos 1) (codes "ann") voted.tables < 1 + 1)
    × (pos 1 ≡ pos 1 → ballots (pos 1) (codes "ann") voted.tables ≤ 1)
unfolding submit parse_int parse_uint scan find_vote check_ballot check_quota check_count
    record_choices get_vote count_votes_by_user submit_vote insert_record count_option count_vote
    find any count update_where text_beq
submit-limit_example =
    submit-limit noon (codes "1") (pos 1) choice lunch kitchen voted (success 200 "投票成功" none) refl
      refl (λ e. omega (arith, e)) refl refl

abbrev renamed : UpdateVoteRequest
renamed = record {
  title = some (codes "dinner");
  description = none;
  cover_url = none;
  vote_type = none;
  max_choices = none;
  max_votes = none;
  start_time = none;
  end_time = none;
  status = none;
  options = [];
}

merge-vote_changes_example :
    merge_vote 720 (vote_changes (pos 1) renamed) lunch
    ≡ record lunch { title = codes "dinner"; status = pos 0; updated_at = 720 }
merge-vote_changes_example =
    merge-vote_changes 720 (pos 1) renamed lunch (λ e. cc) (λ e. cc) (λ e. cc) (λ e. cc) λ e. cc

-- A vote on an option of `lunch` makes the database refuse the deletion of its options; the update
-- goes on, and the vote then has the old options and the new one.
abbrev new_dish : UpdateVoteRequest
new_dish = record renamed {
  options = record { content = codes "soup"; image_url = none; sort_order = pos 0 } ∷ [];
}

options_pile_up :
    map
      (λ (o : VoteOption). o.id)
      (after (update noon (some (int64 (pos 3))) (codes "1") (bound new_dish) voted)).tables.options
    ≡ pos 10 ∷ pos 11 ∷ pos 12 ∷ []
unfolding submit parse_int parse_uint scan find_vote check_ballot check_quota check_count
    record_choices get_vote count_votes_by_user submit_vote insert_record count_option count_vote
    find any count update_where text_beq update replace_options create_options update_vote
    update_votes merge_vote delete_options_by_vote_id delete_options create_option insert_option
    filter
options_pile_up = refl

first_pages-AreNewest_example : AreNewest (pos 3) 2 20 kitchen.tables
unfolding count
first_pages-AreNewest_example =
    first_pages-AreNewest (pos 3) 2 20 kitchen.tables (omega arith) (λ time. ground arith)

-- The offset of a page this far out does not fit in 63 bits and comes out negative.
far_page_refused :
    status_of
      (list_votes noon (some (int64 (pos 3))) (some (codes "461168601842738792")) none kitchen)
    ≡ some 500
unfolding list_votes page_of size_of atoi scan_digits scan_or_max select_votes
far_page_refused = refl
