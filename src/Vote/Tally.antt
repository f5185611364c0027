-- ===== src/Vote/Tally.antt =====
-- The counters under the three statements that record a choice in internal/handler/api/vote.go.
use weiyeston.Base.{
  ℕ, suc, ◌+◌, ◌≤◌, Bool, true, false, ◌&&◌, Option, none, some, [], ◌∷◌, ℤ, pos, text_eq, int_eq,
  nat_eq, ◌==◌, if◌then◌else◌, count, ◌≡◌, arith, count-append, All, All-map, update_where-All,
  int_beq_iff,
}
use weiyeston.Http.{Env, next, statement, settle, after, ◌>>=◌}
use weiyeston.Http.Keeps.{Keeps, On, Kept, Kept-if, statement-On, after->>=}
use weiyeston.Vote.{Vote, VoteOption, VoteRecord, VoteTables}
use weiyeston.Vote.Statements.{has_vote, has_option, insert_record, count_option, count_vote}
use weiyeston.Vote.Views.{Payload}
use weiyeston.Vote.Repo.{W, submit_vote, tally}
use weiyeston.Vote.Counters.{records_of_option, records_of_vote, IsCounted}

abbrev owed : ℤ → ℤ → ℕ
owed a b = if a == b then 1 else 0

abbrev OptionAhead : VoteRecord → VoteTables → VoteOption → Type 0
OptionAhead r t o = o.vote_count + owed r.option_id o.id ≤ records_of_option o.id t

abbrev VoteAhead : VoteRecord → VoteTables → Vote → Type 0
VoteAhead r t v = v.total_votes + owed r.vote_id v.id ≤ records_of_vote v.id t

-- A record stands for which the counters may go up by one: of the options, of the votes.
abbrev Ahead : VoteRecord → VoteTables → Type 0
Ahead r t = All (OptionAhead r t) t.options × All (VoteAhead r t) t.votes

abbrev HalfAhead : VoteRecord → VoteTables → Type 0
HalfAhead r t =
    All (λ (o : VoteOption). o.vote_count ≤ records_of_option o.id t) t.options
    × All (VoteAhead r t) t.votes

Ahead-HalfAhead : (r : VoteRecord) (t : VoteTables) → Ahead r t → HalfAhead r t
Ahead-HalfAhead r t h = (All-map (λ o k. omega (arith, k)) t.options h.0, h.1)

HalfAhead-IsCounted : (r : VoteRecord) (t : VoteTables) → HalfAhead r t → IsCounted t
HalfAhead-IsCounted r t h = record {
  options = h.0;
  votes = All-map (λ v k. omega (arith, k)) t.votes h.1;
}

insert_record-Ahead :
    (now : ℕ) (r : VoteRecord) (t : VoteTables)
    → IsCounted t
    → Kept (Ahead r) (insert_record now r t)
unfolding insert_record count
insert_record-Ahead now r t h =
    Kept-if (Ahead r) (has_vote r.vote_id t && has_option r.option_id t) _ (
      All-map
          (λ (o : VoteOption) k. ground (
            arith,
            k,
            count-append (λ (r : VoteRecord). r.option_id == o.id) t.records
                (record r { id = pos t.next_record; created_at = now } ∷ []),
          ))
          t.options h.options,
      All-map
          (λ (v : Vote) k. ground (
            arith,
            k,
            count-append (λ (r : VoteRecord). r.vote_id == v.id) t.records
                (record r { id = pos t.next_record; created_at = now } ∷ []),
          ))
          t.votes h.votes,
    )

owed_sym : (a b : ℤ) → owed a b ≡ (if b == a then 1 else 0)
owed_sym a b = ground (arith, int_beq_iff a b, int_beq_iff b a)

count_option-HalfAhead :
    (r : VoteRecord) (t : VoteTables) → Ahead r t → Kept (HalfAhead r) (count_option r.option_id t)
unfolding count_option
count_option-HalfAhead r t h = (
  update_where-All (λ (o : VoteOption). o.id == r.option_id) _ t.options
      (λ o e k. ground (arith, owed_sym r.option_id o.id))
      (λ o e k. ground (arith, owed_sym r.option_id o.id)) h.0,
  h.1,
)

count_vote-IsCounted :
    (now : ℕ) (r : VoteRecord) (t : VoteTables)
    → HalfAhead r t
    → Kept IsCounted (count_vote now r.vote_id t)
unfolding count_vote
count_vote-IsCounted now r t h = record {
  options = h.0;
  votes =
      update_where-All (λ (v : Vote). v.id == r.vote_id) _ t.votes
        (λ v e k. ground (arith, owed_sym r.vote_id v.id))
        (λ v e k. ground (arith, owed_sym r.vote_id v.id)) h.1;
}

module _ (env : Env) where
  tally-IsCounted :
      (r : VoteRecord) (w : W)
      → Ahead r w.tables
      → IsCounted (after (tally {D = Payload} env r (some tt) w)).tables
  tally-IsCounted r w h =
      after->>= (On (HalfAhead r)) (On IsCounted) (statement env (count_option r.option_id)) _ w
        (statement-On Payload (HalfAhead r) env (count_option r.option_id) w
          (Ahead-HalfAhead r w.tables h) (count_option-HalfAhead r w.tables h))
        (λ t k. HalfAhead-IsCounted r t.tables k)
        λ _ t k.
          after->>= (On IsCounted) (On IsCounted) (statement env (count_vote env.now r.vote_id)) _ t
            (statement-On Payload IsCounted env (count_vote env.now r.vote_id) t
              (HalfAhead-IsCounted r t.tables k) (count_vote-IsCounted env.now r t.tables k))
            (λ u l. l) λ _ u l. l

  pub submit_vote-IsCounted :
      (r : VoteRecord) → Keeps {D = Payload} (On IsCounted) (submit_vote env r)
  unfolding submit_vote
  submit_vote-IsCounted r w h =
      go (env.fails w.sent) (insert_record env.now r w.tables)
        (insert_record-Ahead env.now r w.tables h)
    where
      go :
          (b : Bool) (o : Option (Unit {0} × VoteTables))
          → Kept (Ahead r) o
          → IsCounted
              (after (
                (◌>>=◌
                    (λ (w : W).
                      if b then next none (record w { sent = suc w.sent }) else settle w o)
                    (tally {D = Payload} env r))
                  w)).tables
      go true o k = h
      go false none k = h
      go false (some (_, u)) k = tally-IsCounted r (record w { tables = u; sent = suc w.sent }) k
