-- ===== src/Vote/Submit.antt =====
-- The stages of SubmitVote of internal/handler/api/vote.go.
use weiyeston.Base.{
  ℕ, suc, ◌≤◌, ◌<◌, false, ◌&&◌, Option, none, some, List, [], ◌∷◌, ◌++◌, ℤ, pos, Text, text_eq,
  int_eq, nat_eq, ◌==◌, length, find, count, ◌≡◌, ◌≢◌, refl, arith, pos_part, sym, ◌∙◌, ap, ap₂,
  take,
}
use mathlib.Core.List.{append-nil, append_assoc}
use weiyeston.Http.{Env, Run, next, stop, ◌>>◌, or_fail, Response}
use weiyeston.Http.Hoare.{Ensures, OnValue, Ensures-mono}
use weiyeston.Vote.{Vote, VoteRecord, VoteTables}
use weiyeston.Vote.Statements.{is_live, insert_record, count_option, count_vote}
use weiyeston.Vote.Views.{Payload}
use weiyeston.Vote.Repo.{W, get_vote, submit_vote, count_votes_by_user}
use weiyeston.Vote.Handlers.{
  SubmitVoteRequest, find_vote, check_ballot, check_quota, check_count, record_choices, new_record,
  is_early, is_late, server_error,
}

-- The records that one user has in one vote.
abbrev pub ballots : ℤ → Text → VoteTables → ℕ
ballots id openid t = count (λ (r : VoteRecord). r.vote_id == id && r.openid == openid) t.records

-- The checks of the vote, as conditions.
pub record IsOpen (now : ℕ) (choices : ℕ) (v : Vote) : Type 0 where
  pub running : v.status ≡ pos 1
  pub started : is_early now v.start_time ≡ false
  pub not_over : is_late now v.end_time ≡ false
  pub single : v.vote_type ≡ pos 1 → choices ≤ 1
  pub within : pos_part v.max_choices ≢ 0 → choices ≤ pos_part v.max_choices

module _ (env : Env) where
  pub find_vote-Ensures :
      (id : ℤ) (w : W)
      → Ensures
          (λ v t. (find (is_live id) w.tables.votes ≡ some v) × (t.tables ≡ w.tables))
          (λ r t. (r.status ≢ 200) × (t.tables ≡ w.tables))
          (find_vote env id w)
  unfolding find_vote get_vote
  find_vote-Ensures id w = ground arith

  pub check_ballot-Ensures :
      (v : Vote) (req : SubmitVoteRequest) (w : W)
      → Ensures
          (λ _ t. IsOpen env.now (length req.option_ids) v × (t ≡ w))
          (λ r t. (r.status ≡ 400) × (t ≡ w))
          (check_ballot env v req w)
  unfolding check_ballot
  check_ballot-Ensures v req w = ground arith

  abbrev pub Under : ℤ → Text → Vote → W → Type 0
  Under id openid v w =
      (pos_part v.max_votes ≢ 0 → ballots id openid w.tables < pos_part v.max_votes)

  abbrev pub Refused : W → Response Payload → W → Type 0
  Refused w r t = (r.status ≢ 200) × (t.tables ≡ w.tables)

  check_count-Ensures :
      (v : Vote) (id : ℤ) (openid : Text) (w : W)
      → Ensures
          (λ _ t. Under id openid v w × (t.tables ≡ w.tables))
          (Refused w)
          (check_count env v id openid w)
  unfolding check_count count_votes_by_user
  check_count-Ensures v id openid w = ground arith

  pub check_quota-Ensures :
      (v : Vote) (id : ℤ) (openid : Text) (w : W)
      → Ensures
          (λ _ t. Under id openid v w × (t.tables ≡ w.tables))
          (Refused w)
          (check_quota env v id openid w)
  unfolding check_quota
  check_quota-Ensures v id openid w = ground (arith, check_count-Ensures v id openid w)

  abbrev stored : W → VoteRecord → VoteRecord
  stored w r = record r { id = pos w.tables.next_record; created_at = env.now }

  submit_vote-Ensures :
      (r : VoteRecord) (w : W)
      → Ensures
          (OnValue
            (λ _ t.
              (t.tables.records ≡ w.tables.records ++ stored w r ∷ [])
              × (t.tables.next_record ≡ suc w.tables.next_record))
            (λ t. t.tables ≡ w.tables))
          (λ (r : Response Payload) t. ⊥)
          (submit_vote env r w)
  unfolding submit_vote insert_record count_option count_vote
  submit_vote-Ensures r w = ground arith

  -- One row for each choice, in order, numbered on from `n`.
  abbrev pub rows : ℕ → ℤ → Text → List ℤ → List VoteRecord
  rows n id openid [] = []
  rows n id openid (option_id ∷ ids) =
      record {
        id = pos n;
        vote_id = id;
        option_id = option_id;
        openid = openid;
        ip_address = none;
        user_agent = none;
        created_at = env.now;
      }
      ∷ rows (suc n) id openid ids

  -- The first `k` choices are recorded, and no other row changes.
  abbrev pub Wrote : ℕ → ℤ → Text → List ℤ → W → W → Type 0
  Wrote k id openid ids w t =
      t.tables.records ≡ w.tables.records ++ rows w.tables.next_record id openid (take k ids)

  abbrev pub AllWritten : ℤ → Text → List ℤ → W → Unit {0} → W → Type 0
  AllWritten id openid ids w _ t = Wrote (length ids) id openid ids w t

  abbrev pub PartWritten : ℤ → Text → List ℤ → W → Response Payload → W → Type 0
  PartWritten id openid ids w r t =
      (k : ℕ) × (k < length ids) × (r.status ≡ 500) × Wrote k id openid ids w t

  Wrote-suc :
      (k : ℕ) (id : ℤ) (openid : Text) (o : ℤ) (ids : List ℤ) (w t u : W)
      → t.tables.records ≡ w.tables.records ++ stored w (new_record id openid o) ∷ []
      → t.tables.next_record ≡ suc w.tables.next_record
      → Wrote k id openid ids t u
      → Wrote (suc k) id openid (o ∷ ids) w u
  Wrote-suc k id openid o ids w t u e n h =
      h ∙ ap₂ (λ rs n. rs ++ rows n id openid (take k ids)) e n ∙ append_assoc w.tables.records _ _

  -- The loop records every choice, or stops at its first error, and then what it wrote stays.
  pub record_choices-Ensures :
      (id : ℤ) (openid : Text) (ids : List ℤ) (w : W)
      → Ensures
          (AllWritten id openid ids w)
          (PartWritten id openid ids w)
          (record_choices env id openid ids w)
  unfolding record_choices
  record_choices-Ensures id openid [] w = sym (append-nil _)
  record_choices-Ensures id openid (o ∷ ids) w =
      go (submit_vote env (new_record id openid o) w)
        (submit_vote-Ensures (new_record id openid o) w) (record_choices-Ensures id openid ids)
    where
      go :
          (x : Run W Payload (Option (Unit {0})))
          → Ensures
              (OnValue
                (λ _ t.
                  (t.tables.records ≡ w.tables.records ++ stored w (new_record id openid o) ∷ [])
                  × (t.tables.next_record ≡ suc w.tables.next_record))
                (λ t. t.tables ≡ w.tables))
              (λ r t. ⊥)
              x
          → ((t : W)
              → Ensures
                  (AllWritten id openid ids t)
                  (PartWritten id openid ids t)
                  (record_choices env id openid ids t))
          → Ensures
              (AllWritten id openid (o ∷ ids) w)
              (PartWritten id openid (o ∷ ids) w)
              ((or_fail (λ _. x) (server_error "提交投票失败") >> record_choices env id openid ids) w)
      go (next none t) same later =
          (0, omega arith, refl, ap (λ (x : VoteTables). x.records) same ∙ sym (append-nil _))
      go (next (some a) t) (e, n) later =
          Ensures-mono (AllWritten id openid ids t) (AllWritten id openid (o ∷ ids) w)
            (PartWritten id openid ids t) (PartWritten id openid (o ∷ ids) w)
            (record_choices env id openid ids t)
            (λ _ u h. Wrote-suc (length ids) id openid o ids w t u e n h)
            (λ r u h. (suc h.0, omega arith, h.2, Wrote-suc h.0 id openid o ids w t u e n h.3))
            (later t)
      go (stop r t) h later = absurd h
