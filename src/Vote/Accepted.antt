-- ===== src/Vote/Accepted.antt =====
-- SubmitVote of internal/handler/api/vote.go as a whole.
use mathlib.Core.List.{append-nil}
use weiyeston.Base.{
  ℕ, ◌<◌, none, some, ◌++◌, ℤ, Text, pos_part, length, take, find, ◌≡◌, ◌≢◌, refl, arith, sym, ◌∙◌,
  ap, subst, inl, inr,
}
use weiyeston.Http.{Env, stop, ◌>>=◌, ◌>>◌, respond, Response, success, bound}
use weiyeston.Http.Hoare.{
  Ensures, Ensures->>=, Ensures->>, Ensures-next, Ensures-stop, Ensures-mono,
}
use weiyeston.Http.Inversion.{Run-cases}
use weiyeston.Strconv.{parse_int}
use weiyeston.Vote.{Vote, VoteTables}
use weiyeston.Vote.Statements.{is_live}
use weiyeston.Vote.Views.{Payload}
use weiyeston.Vote.Repo.{W}
use weiyeston.Vote.Handlers.{
  SubmitVoteRequest, find_vote, check_ballot, check_quota, record_choices, submit,
}
use weiyeston.Vote.Submit.{
  IsOpen, Under, Refused, ballots, rows, Wrote, AllWritten, PartWritten, find_vote-Ensures,
  check_ballot-Ensures, check_quota-Ensures, record_choices-Ensures,
}

abbrev ok_response : Response Payload
ok_response = success 200 "投票成功" none

module _ (env : Env) where
  -- An accepted submission: the vote is live, open for it, and its user is under the limit.
  pub record IsAccepted (id : ℤ) (req : SubmitVoteRequest) (v : Vote) (w : W) : Type 0 where
    pub found : find (is_live id) w.tables.votes ≡ some v
    pub fits : IsOpen env.now (length req.option_ids) v
    pub under : Under env id req.openid v w

  -- What the response says of the request and of the records.
  pub record IsAnswered (id : ℤ) (req : SubmitVoteRequest) (w : W) (r : Response Payload) (t : W)
      : Type 0 where
    pub success :
        r.status ≡ 200
        → ((v : Vote) × IsAccepted id req v w)
          × Wrote env (length req.option_ids) id req.openid req.option_ids w t
    pub failure :
        r.status ≢ 200
        → (k : ℕ) × Wrote env k id req.openid req.option_ids w t
          × (k ≢ 0 → (r.status ≡ 500) × ((v : Vote) × IsAccepted id req v w))

  abbrev pub Never : Unit {0} → W → Type 0
  Never _ _ = ⊥

  Refused-IsAnswered :
      (id : ℤ) (req : SubmitVoteRequest) (w : W) (r : Response Payload) (t : W)
      → Refused env w r t
      → IsAnswered id req w r t
  Refused-IsAnswered id req w r t (bad, same) = record {
    success = λ ok. absurd (bad ok);
    failure = λ _.
        (0, ap (λ (x : VoteTables). x.records) same ∙ sym (append-nil _), λ n. absurd (n refl));
  }

  Wrote-same :
      (k : ℕ) (id : ℤ) (req : SubmitVoteRequest) (w t u : W)
      → t.tables ≡ w.tables
      → Wrote env k id req.openid req.option_ids t u
      → Wrote env k id req.openid req.option_ids w u
  Wrote-same k id req w t u same h =
      subst
        (λ (x : VoteTables).
          u.tables.records
          ≡ x.records ++ rows env x.next_record id req.openid (take k req.option_ids))
        same h

  recorded-IsAnswered :
      (id : ℤ) (req : SubmitVoteRequest) (v : Vote) (w t : W)
      → IsAccepted id req v w
      → t.tables ≡ w.tables
      → Ensures Never
          (IsAnswered id req w)
          ((record_choices env id req.openid req.option_ids >> respond ok_response) t)
  recorded-IsAnswered id req v w t a same =
      Ensures->> (AllWritten env id req.openid req.option_ids t) Never (IsAnswered id req w)
        (record_choices env id req.openid req.option_ids) (respond ok_response) t
        (Ensures-mono (AllWritten env id req.openid req.option_ids t)
          (AllWritten env id req.openid req.option_ids t)
          (PartWritten env id req.openid req.option_ids t) (IsAnswered id req w) _ (λ _ u h. h)
          (λ r u h. record {
            success = λ ok. absurd (omega (arith, ok, h.2));
            failure = λ _. (h.0, Wrote-same h.0 id req w t u same h.3, λ _. (h.2, (v, a)));
          })
          (record_choices-Ensures env id req.openid req.option_ids t))
        λ _ u h. record {
          success = λ _. ((v, a), Wrote-same (length req.option_ids) id req w t u same h);
          failure = λ bad. absurd (bad refl);
        }

  checked-IsAnswered :
      (id : ℤ) (req : SubmitVoteRequest) (v : Vote) (w t : W)
      → find (is_live id) w.tables.votes ≡ some v
      → t.tables ≡ w.tables
      → Ensures Never (IsAnswered id req w) (
          (check_ballot env v req
              >> (check_quota env v id req.openid
                  >> (record_choices env id req.openid req.option_ids >> respond ok_response)))
            t)
  checked-IsAnswered id req v w t found same =
      Ensures->> (λ _ u. IsOpen env.now (length req.option_ids) v × (u ≡ t)) Never
        (IsAnswered id req w) (check_ballot env v req)
        (check_quota env v id req.openid
          >> (record_choices env id req.openid req.option_ids >> respond ok_response))
        t
        (Ensures-mono (λ _ u. IsOpen env.now (length req.option_ids) v × (u ≡ t))
          (λ _ u. IsOpen env.now (length req.option_ids) v × (u ≡ t))
          (λ r u. (r.status ≡ 400) × (u ≡ t)) (IsAnswered id req w) (check_ballot env v req t)
          (λ _ u h. h)
          (λ r u h.
            Refused-IsAnswered id req w r u
              (λ ok. omega (arith, ok, h.0), ap (λ (x : W). x.tables) h.1 ∙ same))
          (check_ballot-Ensures env v req t))
        λ _ u h.
          Ensures->> (λ _ x. Under env id req.openid v u × (x.tables ≡ u.tables)) Never
            (IsAnswered id req w) (check_quota env v id req.openid)
            (record_choices env id req.openid req.option_ids >> respond ok_response) u
            (Ensures-mono (λ _ x. Under env id req.openid v u × (x.tables ≡ u.tables))
              (λ _ x. Under env id req.openid v u × (x.tables ≡ u.tables)) (Refused env u)
              (IsAnswered id req w) (check_quota env v id req.openid u) (λ _ x h. h)
              (λ r x k.
                Refused-IsAnswered id req w r x (k.0, k.1 ∙ ap (λ (x : W). x.tables) h.1 ∙ same))
              (check_quota-Ensures env v id req.openid u))
            λ _ x k.
              recorded-IsAnswered id req v w x
                record {
                  found = found;
                  fits = h.0;
                  under =
                      subst
                        (λ (y : VoteTables).
                          pos_part v.max_votes ≢ 0 → ballots id req.openid y < pos_part v.max_votes)
                        (ap (λ (x : W). x.tables) h.1 ∙ same) k.0;
                }
                (k.1 ∙ ap (λ (x : W). x.tables) h.1 ∙ same)

  pub submit-Ensures :
      (param : Text) (id : ℤ) (req : SubmitVoteRequest) (w : W)
      → parse_int param ≡ some id
      → Ensures Never (IsAnswered id req w) (submit env param (bound req) w)
  unfolding submit
  submit-Ensures param id req w e =
      rw (e, ◌>>=◌)
        (Ensures->>= (λ v t. (find (is_live id) w.tables.votes ≡ some v) × (t.tables ≡ w.tables))
          Never (IsAnswered id req w) (find_vote env id)
          (λ v.
            check_ballot env v req
            >> (check_quota env v id req.openid
                >> (record_choices env id req.openid req.option_ids >> respond ok_response)))
          w
          (Ensures-mono (λ v t. (find (is_live id) w.tables.votes ≡ some v) × (t.tables ≡ w.tables))
            (λ v t. (find (is_live id) w.tables.votes ≡ some v) × (t.tables ≡ w.tables))
            (Refused env w) (IsAnswered id req w) (find_vote env id w) (λ _ u h. h)
            (Refused-IsAnswered id req w) (find_vote-Ensures env id w))
          λ v t h. checked-IsAnswered id req v w t h.0 h.1)

  -- With a numeric vote id and a body that binds, SubmitVote answers. If it answers 200 the vote was
  -- live, running, within its times, and the request within the choices and the user under the limit
  -- on records that the vote sets; then there is one new record for each choice, in order, and no
  -- other row of the records differs. Otherwise no record is new, or the answer is 500 for an accepted
  -- submission of which the first choices are recorded.
  pub submit-IsAnswered :
      (param : Text) (id : ℤ) (req : SubmitVoteRequest) (w : W)
      → parse_int param ≡ some id
      → (r : Response Payload) × (t : W) × (submit env param (bound req) w ≡ stop r t)
        × IsAnswered id req w r t
  submit-IsAnswered param id req w e = elim (Run-cases (submit env param (bound req) w)) [
    | inl (a, t, n) ↦
        absurd (Ensures-next Never (IsAnswered id req w) _ (submit-Ensures param id req w e) n)
    | inr (r, t, n) ↦
        (r, t, n, Ensures-stop Never (IsAnswered id req w) _ (submit-Ensures param id req w e) n)
  ]
