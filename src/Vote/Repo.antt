-- ===== src/Vote/Repo.antt =====
-- The PostgreSQL repository of internal/handler/api/vote.go: its statements sent one by one.
use weiyeston.Base.{
  ℕ, ◌&&◌, ◌||◌, Option, none, some, List, ℤ, pos, Text, text_eq, int_eq, nat_eq, ◌==◌,
  if◌then◌else◌, find, filter, count, sort_by, ltb, ltb_ℤ, leb_ℤ,
}
use weiyeston.Http.{Env, World, Run, next, statement, ◌>>=◌, pure}
use weiyeston.Vote.{Vote, VoteOption, VoteRecord, VoteTables}
use weiyeston.Vote.Statements.{
  is_live, insert_vote, update_votes, delete_votes, insert_option, delete_options, insert_record,
  count_option, count_vote,
}

abbrev pub W : Type 0
W = World VoteTables (Unit {0})

abbrev pub if_affected : Option ℕ → Option (Unit {0})
if_affected none = none
if_affected (some rows) = if rows == 0 then none else some tt

module _ {D : Type 0} (env : Env) where
  -- An id that is not positive is an error with no statement sent.
  unfoldable pub get_vote : ℤ → W → Run W D (Option (Option Vote))
  get_vote id w =
      if leb_ℤ id (pos 0)
      then next none w
      else statement env (λ t. some (find (is_live id) t.votes, t)) w

  unfoldable pub create_vote : Vote → W → Run W D (Option Vote)
  create_vote v = statement env (insert_vote env.now v)

  -- No row affected is an error too.
  unfoldable pub update_vote : Vote → W → Run W D (Option (Unit {0}))
  update_vote v = do rows ← statement env (update_votes env.now v); pure (if_affected rows)

  unfoldable pub soft_delete_vote : ℤ → W → Run W D (Option (Unit {0}))
  soft_delete_vote id = statement env (delete_votes env.now id)

  unfoldable pub get_options : ℤ → W → Run W D (Option (List VoteOption))
  get_options vote_id = statement env (λ t. some (
    sort_by (λ a b. ltb_ℤ a.sort_order b.sort_order) (filter (λ o. o.vote_id == vote_id) t.options),
    t,
  ))

  unfoldable pub create_option : VoteOption → W → Run W D (Option (Unit {0}))
  create_option o = statement env (insert_option o)

  unfoldable pub delete_options_by_vote_id : ℤ → W → Run W D (Option (Unit {0}))
  delete_options_by_vote_id vote_id = statement env (delete_options vote_id)

  -- The errors of the two counters are dropped.
  abbrev pub tally : VoteRecord → Option (Unit {0}) → W → Run W D (Option (Unit {0}))
  tally r none = pure none
  tally r (some _) = do
    _ ← statement env (count_option r.option_id)
    _ ← statement env (count_vote env.now r.vote_id)
    pure (some tt)

  unfoldable pub submit_vote : VoteRecord → W → Run W D (Option (Unit {0}))
  submit_vote r = do inserted ← statement env (insert_record env.now r); tally r inserted

  unfoldable pub count_votes_by_user : ℤ → Text → W → Run W D (Option ℕ)
  count_votes_by_user vote_id openid =
      statement env
        (λ t. some (count (λ r. r.vote_id == vote_id && r.openid == openid) t.records, t))

  unfoldable pub get_results : ℤ → W → Run W D (Option (List VoteOption))
  get_results vote_id = statement env (λ t. some (
    sort_by
        (λ a b.
          ltb b.vote_count a.vote_count
          || a.vote_count == b.vote_count && ltb_ℤ a.sort_order b.sort_order)
        (filter (λ o. o.vote_id == vote_id) t.options),
    t,
  ))
