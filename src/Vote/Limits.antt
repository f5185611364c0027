-- ===== src/Vote/Limits.antt =====
-- The limits that SubmitVote of internal/handler/api/vote.go puts on a user's records.
use weiyeston.Base.{
  ℕ, suc, ◌+◌, ◌≤◌, ◌<◌, ◌&&◌, some, List, [], ◌∷◌, ℤ, pos, Text, ◌==◌, text_eq, int_eq, length,
  take, find, count, ◌≡◌, ◌≢◌, refl, arith, sym, ◌∙◌, ap, subst, count-append, text_beq_iff,
  int_beq_iff, pos_part, some_injective,
}
use weiyeston.Http.{Env, Response, stop, bound}
use weiyeston.Http.Hoare.{Ensures-stop}
use weiyeston.Strconv.{parse_int}
use weiyeston.Vote.{Vote, VoteRecord}
use weiyeston.Vote.Statements.{is_live}
use weiyeston.Vote.Views.{Payload}
use weiyeston.Vote.Repo.{W}
use weiyeston.Vote.Handlers.{SubmitVoteRequest, submit}
use weiyeston.Vote.Submit.{ballots, rows, Wrote}
use weiyeston.Vote.Accepted.{IsAccepted, IsAnswered, submit-Ensures, Never}

count-rows :
    (env : Env) (n : ℕ) (id : ℤ) (openid : Text) (ids : List ℤ)
    → count (λ (r : VoteRecord). r.vote_id == id && r.openid == openid) (rows env n id openid ids)
      ≡ length ids
unfolding count
count-rows env n id openid [] = refl
count-rows env n id openid (o ∷ ids) =
    ground
      (arith, count-rows env (suc n) id openid ids, text_beq_iff openid openid, int_beq_iff id id)

take-length : (ids : List ℤ) → take (length ids) ids ≡ ids
take-length [] = refl
take-length (o ∷ ids) = ap (λ x. o ∷ x) (take-length ids)

ballots-Wrote :
    (env : Env) (id : ℤ) (openid : Text) (ids : List ℤ) (w t : W)
    → Wrote env (length ids) id openid ids w t
    → ballots id openid t.tables ≡ ballots id openid w.tables + length ids
ballots-Wrote env id openid ids w t h =
    ap (count (λ (r : VoteRecord). r.vote_id == id && r.openid == openid)) h
    ∙ count-append _ w.tables.records _
    ∙ ap (λ n. ballots id openid w.tables + n)
        (ap
            (λ x.
              count (λ (r : VoteRecord). r.vote_id == id && r.openid == openid)
                (rows env w.tables.next_record id openid x))
            (take-length ids)
          ∙ count-rows env w.tables.next_record id openid ids)

pub IsLimited-of :
    (env : Env) (id : ℤ) (req : SubmitVoteRequest) (v : Vote) (w t : W)
    → pos_part v.max_votes ≢ 0
    → IsAccepted env id req v w
    → Wrote env (length req.option_ids) id req.openid req.option_ids w t
    → (ballots id req.openid t.tables < pos_part v.max_votes + length req.option_ids)
      × (v.vote_type ≡ pos 1 → ballots id req.openid t.tables ≤ pos_part v.max_votes)
IsLimited-of env id req v w t m a h = (
  omega (arith, a.under m, ballots-Wrote env id req.openid req.option_ids w t h),
  λ single. omega (
    arith,
    a.under m,
    a.fits.single single,
    ballots-Wrote env id req.openid req.option_ids w t h,
  ),
)

-- If SubmitVote answers 200 for a vote with a limit on a user's records, the user then has fewer
-- records in the vote than the limit plus the number of choices; in a single-choice vote the user has
-- at most the limit.
pub submit-limit :
    (env : Env) (param : Text) (id : ℤ) (req : SubmitVoteRequest) (v : Vote) (w t : W)
    (r : Response Payload)
    → parse_int param ≡ some id
    → find (is_live id) w.tables.votes ≡ some v
    → pos_part v.max_votes ≢ 0
    → submit env param (bound req) w ≡ stop r t
    → r.status ≡ 200
    → (ballots id req.openid t.tables < pos_part v.max_votes + length req.option_ids)
      × (v.vote_type ≡ pos 1 → ballots id req.openid t.tables ≤ pos_part v.max_votes)
submit-limit env param id req v w t r e f m s ok =
    let answered =
      Ensures-stop (Never env) (IsAnswered env id req w) _ (submit-Ensures env param id req w e)
        s in
    let ((u, a), wrote) = answered.success ok in
    let same : u ≡ v = some_injective (sym a.found ∙ f) in
    IsLimited-of env id req v w t m (subst (λ x. IsAccepted env id req x w) same a) wrote
