-- ===== src/Vote/Counters.antt =====
-- The counters `votes.total_votes` and `vote_options.vote_count` of internal/handler/api/vote.go, and
-- the records that they count.
use weiyeston.Base.{
  ℕ, ◌≤◌, true, false, not, ◌&&◌, none, ℤ, text_eq, int_eq, nat_eq, ◌==◌, if◌then◌else◌, count, any,
  ◌≡◌, arith, All, All-append, All-filter, All-update_where, filter,
}
use weiyeston.Sql.{did}
use weiyeston.Http.Keeps.{Preserves, Kept, Kept-if}
use weiyeston.Vote.{Vote, VoteOption, VoteRecord, VoteTables}
use weiyeston.Vote.Statements.{
  is_live, has_vote, insert_vote, merge_vote, update_votes, delete_votes, insert_option,
  delete_options,
}

abbrev pub records_of_option : ℤ → VoteTables → ℕ
records_of_option id t = count (λ (r : VoteRecord). r.option_id == id) t.records

abbrev pub records_of_vote : ℤ → VoteTables → ℕ
records_of_vote id t = count (λ (r : VoteRecord). r.vote_id == id) t.records

-- Each counter is at most the number of the records it counts.
pub record IsCounted (t : VoteTables) : Type 0 where
  pub options : All (λ (o : VoteOption). o.vote_count ≤ records_of_option o.id t) t.options
  pub votes : All (λ (v : Vote). v.total_votes ≤ records_of_vote v.id t) t.votes

pub insert_vote-IsCounted :
    (now : ℕ) (v : Vote) → v.total_votes ≡ 0 → Preserves IsCounted (insert_vote now v)
unfolding insert_vote
insert_vote-IsCounted now v z t h =
    Kept-if IsCounted (t.is_account v.account_id) _
      record { options = h.options; votes = All-append _ t.votes _ h.votes (omega (arith, z), tt) }

pub update_votes-IsCounted : (now : ℕ) (v : Vote) → Preserves IsCounted (update_votes now v)
unfolding update_votes merge_vote
update_votes-IsCounted now v t h = record {
  options = h.options;
  votes = All-update_where _ (is_live v.id) _ t.votes (λ x p k. k) h.votes;
}

pub delete_votes-IsCounted : (now : ℕ) (id : ℤ) → Preserves IsCounted (delete_votes now id)
unfolding delete_votes
delete_votes-IsCounted now id t h = record {
  options = h.options;
  votes = All-update_where _ (is_live id) _ t.votes (λ x p k. k) h.votes;
}

pub insert_option-IsCounted :
    (o : VoteOption) → o.vote_count ≡ 0 → Preserves IsCounted (insert_option o)
unfolding insert_option
insert_option-IsCounted o z t h =
    Kept-if IsCounted (has_vote o.vote_id t) _ record {
      options = All-append _ t.options _ h.options (omega (arith, z), tt);
      votes = h.votes;
    }

pub delete_options-IsCounted : (id : ℤ) → Preserves IsCounted (delete_options id)
unfolding delete_options
delete_options-IsCounted id t h =
    elim (any (λ o. o.vote_id == id && any (λ r. r.option_id == o.id) t.records) t.options)
      as (λ b. Kept IsCounted (
        if b
        then none
        else did (record t { options = filter (λ o. not (o.vote_id == id)) t.options }))) [
          | true ↦ tt
          | false ↦ record { options = All-filter _ _ t.options h.options; votes = h.votes }
        ]
