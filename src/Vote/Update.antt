-- ===== src/Vote/Update.antt =====
-- UpdateVote of internal/handler/api/vote.go, field by field.
use weiyeston.Base.{
  ℕ, Option, none, some, get_or, [], ℤ, pos, negsuc, text_eq, int_eq, ◌==◌, ◌≡◌, ◌≢◌, refl, arith,
  int_beq_iff, Eq, Bool-cases, inl, inr, ap,
}
use weiyeston.Sql.{coalesce, unless_zero}
use weiyeston.Vote.{Vote}
use weiyeston.Vote.Statements.{merge_vote}
use weiyeston.Vote.Handlers.{UpdateVoteRequest, vote_changes}

-- A column whose parameter is the zero where the request leaves it out.
kept :
    {A : Type 0}
    → ⦃e : Eq A⦄ → (zero old : A) (o : Option A) → o ≢ some zero
    → unless_zero (get_or o zero == zero) (get_or o zero) old ≡ get_or o old
kept ⦃e⦄ zero old none h = ground (arith, e.beq_iff zero zero)
kept ⦃e⦄ zero old (some a) h = elim (Bool-cases (e.beq a zero)) [
  | inl same ↦ absurd (h (ap some ((e.beq_iff a zero).0 same)))
  | inr differs ↦ rw differs refl
]

-- A request that gives no empty or zero value changes the fields that it gives and no others, but for
-- the status, which it resets to draft unless it gives one.
pub merge-vote_changes :
    (now : ℕ) (id : ℤ) (req : UpdateVoteRequest) (old : Vote)
    → req.title ≢ some []
    → req.vote_type ≢ some (pos 0)
    → req.max_choices ≢ some (pos 0)
    → req.max_votes ≢ some (pos 0)
    → req.status ≢ some (negsuc 0)
    → merge_vote now (vote_changes id req) old ≡ record old {
      title = get_or req.title old.title;
      description = coalesce req.description old.description;
      cover_url = coalesce req.cover_url old.cover_url;
      vote_type = get_or req.vote_type old.vote_type;
      max_choices = get_or req.max_choices old.max_choices;
      max_votes = get_or req.max_votes old.max_votes;
      start_time = coalesce req.start_time old.start_time;
      end_time = coalesce req.end_time old.end_time;
      status = get_or req.status (pos 0);
      updated_at = now;
    }
unfolding merge_vote
merge-vote_changes now id req old t v c m s =
    rw
      (
        kept [] old.title req.title t,
        kept (pos 0) old.vote_type req.vote_type v,
        kept (pos 0) old.max_choices req.max_choices c,
        kept (pos 0) old.max_votes req.max_votes m,
        status,
      )
      refl
  where
    status :
        unless_zero (get_or req.status (pos 0) == negsuc 0) (get_or req.status (pos 0)) old.status
        ≡ get_or req.status (pos 0)
    status = ground (arith, int_beq_iff (get_or req.status (pos 0)) (negsuc 0))
