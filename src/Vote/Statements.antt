-- ===== src/Vote/Statements.antt =====
-- The statements of the voting repository of internal/handler/api/vote.go, as functions on the tables.
-- A statement is `none` where a foreign key of migrations/000001_init.up.sql refuses it.
use weiyeston.Base.{
  ℕ, suc, ◌+◌, Bool, not, ◌&&◌, Option, none, some, is_none, [], ◌∷◌, ◌++◌, ℤ, pos, negsuc, text_eq,
  int_eq, nat_eq, ◌==◌, if◌then◌else◌, any, filter, count, update_where,
}
use weiyeston.Sql.{did, coalesce, unless_zero}
use weiyeston.Vote.{Vote, VoteOption, VoteRecord, VoteTables}

-- WHERE id = $1 AND deleted_at IS NULL.
abbrev pub is_live : ℤ → Vote → Bool
is_live id v = v.id == id && is_none v.deleted_at

abbrev pub has_vote : ℤ → VoteTables → Bool
has_vote id t = any (λ v. v.id == id) t.votes

abbrev pub has_option : ℤ → VoteTables → Bool
has_option id t = any (λ o. o.id == id) t.options

unfoldable pub insert_option : VoteOption → VoteTables → Option (Unit {0} × VoteTables)
insert_option o t =
    if has_vote o.vote_id t
    then did (record t {
      options = t.options ++ record o { id = pos t.next_option } ∷ [];
      next_option = suc t.next_option;
    })
    else none

-- Refused by the foreign key of `vote_records` while a record points at an option of the vote.
unfoldable pub delete_options : ℤ → VoteTables → Option (Unit {0} × VoteTables)
delete_options vote_id t =
    if any (λ o. o.vote_id == vote_id && any (λ r. r.option_id == o.id) t.records) t.options
    then none
    else did (record t { options = filter (λ o. not (o.vote_id == vote_id)) t.options })

unfoldable pub count_option : ℤ → VoteTables → Option (Unit {0} × VoteTables)
count_option id t = did (record t {
  options =
      update_where (λ o. o.id == id) (λ o. record o { vote_count = o.vote_count + 1 }) t.options;
})

module _ (now : ℕ) where
  -- The row that the database stores, with its id and its times.
  unfoldable pub insert_vote : Vote → VoteTables → Option (Vote × VoteTables)
  insert_vote v t =
      let row = record v {
        id = pos t.next_vote;
        deleted_at = none;
        created_at = now;
        updated_at = now;
      } in
      if t.is_account v.account_id
      then some (row, record t { votes = t.votes ++ row ∷ []; next_vote = suc t.next_vote })
      else none

  -- SET … of UpdateVote, `v` being its parameters.
  unfoldable pub merge_vote : Vote → Vote → Vote
  merge_vote v old = record old {
    title = unless_zero (v.title == []) v.title old.title;
    description = coalesce v.description old.description;
    cover_url = coalesce v.cover_url old.cover_url;
    vote_type = unless_zero (v.vote_type == pos 0) v.vote_type old.vote_type;
    max_choices = unless_zero (v.max_choices == pos 0) v.max_choices old.max_choices;
    max_votes = unless_zero (v.max_votes == pos 0) v.max_votes old.max_votes;
    start_time = coalesce v.start_time old.start_time;
    end_time = coalesce v.end_time old.end_time;
    status = unless_zero (v.status == negsuc 0) v.status old.status;
    updated_at = now;
  }

  -- The rows affected, and the tables.
  unfoldable pub update_votes : Vote → VoteTables → Option (ℕ × VoteTables)
  update_votes v t = some (
    count (is_live v.id) t.votes,
    record t { votes = update_where (is_live v.id) (merge_vote v) t.votes },
  )

  unfoldable pub delete_votes : ℤ → VoteTables → Option (Unit {0} × VoteTables)
  delete_votes id t = did (record t {
    votes =
        update_where (is_live id) (λ v. record v { deleted_at = some now; updated_at = now })
          t.votes;
  })

  unfoldable pub insert_record : VoteRecord → VoteTables → Option (Unit {0} × VoteTables)
  insert_record r t =
      if has_vote r.vote_id t && has_option r.option_id t
      then did (record t {
        records = t.records ++ record r { id = pos t.next_record; created_at = now } ∷ [];
        next_record = suc t.next_record;
      })
      else none

  -- The trigger of the table stamps the row.
  unfoldable pub count_vote : ℤ → VoteTables → Option (Unit {0} × VoteTables)
  count_vote id t = did (record t {
    votes =
        update_where (λ v. v.id == id)
          (λ v. record v { total_votes = v.total_votes + 1; updated_at = now }) t.votes;
  })
