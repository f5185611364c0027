-- ===== src/Vote/Page.antt =====
-- ListVotes of internal/handler/api/vote.go: its query, its page and its size.
use weiyeston.Base.{
  Bool, false, ◌≤◌, nat_eq, All, Ordered, IsSorted-Ordered, sort_by-IsSorted, count, count-sort_by,
  count-filter, wrapped, ℕ, zero, suc, ◌+◌, ◌-◌, ◌*◌, ◌^◌, ◌<◌, ◌&&◌, ◌||◌, Option, none, some,
  is_none, get_or, List, [], ◌∷◌, ◌++◌, ℤ, pos, pos_part, Text, codes, text_eq, int_eq, ◌==◌,
  if◌then◌else◌, ltb, ltb_ℤ, take, drop, filter, sort_by, map, ◌≡◌, refl, arith, sym, ap, ap₂, ◌∙◌,
}
use weiyeston.Http.{Env, statement, ◌>>=◌, respond, or_fail, success}
use weiyeston.Strconv.{atoi}
use weiyeston.Middleware.{Value}
use weiyeston.Vote.{Vote, VoteTables}
use weiyeston.Vote.Views.{vote_list, to_vote_vo}
use weiyeston.Vote.Handlers.{H, get_tenant_id, server_error}

abbrev pub query_or : Option Text → Text → Text
query_or value default_value = get_or value default_value

unfoldable pub page_of : Option Text → ℤ
page_of query =
    let page = atoi (query_or query (codes "1")) in if ltb_ℤ page (pos 1) then pos 1 else page

unfoldable pub size_of : Option Text → ℤ
size_of query =
    let size = atoi (query_or query (codes "20")) in
    if ltb_ℤ size (pos 1) || ltb_ℤ (pos 100) size then pos 20 else size

abbrev pub offset_of : ℤ → ℤ → ℤ
offset_of page size = wrapped ((pos_part page - 1) * pos_part size)

-- WHERE account_id = $1 AND deleted_at IS NULL ORDER BY created_at DESC. Votes of one time stand in the
-- table's order here; the database may give them in another, and in another again for the next page.
abbrev pub votes_of : ℤ → List Vote → List Vote
votes_of account_id votes =
    sort_by (λ a b. ltb b.created_at a.created_at)
      (filter (λ v. v.account_id == account_id && is_none v.deleted_at) votes)

-- The database refuses a negative OFFSET.
unfoldable pub select_votes :
    (account_id offset limit : ℤ) → VoteTables → Option (List Vote × VoteTables)
select_votes account_id offset limit t =
    if ltb_ℤ offset (pos 0)
    then none
    else some (take (pos_part limit) (drop (pos_part offset) (votes_of account_id t.votes)), t)

unfoldable pub list_votes : Env → Option Value → (page size : Option Text) → H (Unit {0})
list_votes env tenant page size = do
  tenant_id ← get_tenant_id tenant
  votes ←
      or_fail
        (statement env
          (select_votes tenant_id (offset_of (page_of page) (size_of size)) (size_of size)))
        (server_error "查询投票列表失败")
  respond (
      success 200 "ok"
        (some (vote_list (map (λ v. to_vote_vo v []) votes) (page_of page) (size_of size))))

abbrev pub rows_of : Option (List Vote × VoteTables) → List Vote
rows_of none = []
rows_of (some (rows, t)) = rows

-- The rows of the first `n` pages of a size, one page after the other, as the statement gives them.
abbrev pub page_rows : ℤ → ℕ → ℕ → VoteTables → List Vote
page_rows account_id page size t =
    rows_of (select_votes account_id (offset_of (pos page) (pos size)) (pos size) t)

abbrev pub first_pages : ℤ → ℕ → ℕ → VoteTables → List Vote
first_pages account_id zero size t = []
first_pages account_id (suc n) size t =
    first_pages account_id n size t ++ page_rows account_id (suc n) size t

module _ {A : Type 0} where
  take_nil : (n : ℕ) → ◌≡◌ {A = List A} (take n []) []
  take_nil zero = refl
  take_nil (suc n) = refl

  take-drop : (m n : ℕ) (xs : List A) → take m xs ++ take n (drop m xs) ≡ take (m + n) xs
  take-drop zero n xs = let e : n ≡ zero + n = omega arith in ap (λ k. take k xs) e
  take-drop (suc m) n [] = take_nil n ∙ sym (take_nil (suc m + n))
  take-drop (suc m) n (x ∷ xs) =
      let e : suc (m + n) ≡ suc m + n = omega arith in
      ap (λ ys. x ∷ ys) (take-drop m n xs) ∙ ap (λ k. take k (x ∷ xs)) e

wrapped_small : (n : ℕ) → n < 2 ^ 63 → wrapped n ≡ pos n
wrapped_small n h = ground arith

offset_of_lem :
    (page size : ℕ)
    → page * size < 2 ^ 63
    → offset_of (pos (suc page)) (pos size) ≡ pos (page * size)
offset_of_lem page size h =
    let e : suc page - 1 ≡ page = omega arith in
    ap (λ p. wrapped (p * size)) e ∙ wrapped_small (page * size) h

page_rows-take :
    (account_id : ℤ) (page size : ℕ) (t : VoteTables)
    → page * size < 2 ^ 63
    → page_rows account_id (suc page) size t
      ≡ take size (drop (page * size) (votes_of account_id t.votes))
unfolding select_votes
page_rows-take account_id page size t h =
    ap (λ offset. rows_of (select_votes account_id offset (pos size) t)) (offset_of_lem page size h)
    ∙ at_offset (page * size)
  where
    at_offset :
        (n : ℕ)
        → rows_of (select_votes account_id (pos n) (pos size) t)
          ≡ take size (drop n (votes_of account_id t.votes))
    at_offset n = ground arith

first_pages_lem :
    (account_id : ℤ) (n size : ℕ) (t : VoteTables)
    → n * size < 2 ^ 63
    → first_pages account_id n size t ≡ take (n * size) (votes_of account_id t.votes)
first_pages_lem account_id zero size t h =
    let e : 0 ≡ zero * size = omega arith in ap (λ k. take k (votes_of account_id t.votes)) e
first_pages_lem account_id (suc n) size t h =
    let e : n * size + size ≡ suc n * size = omega arith in
    let small : n * size < 2 ^ 63 = omega (arith, h, e) in
    ap₂ (λ xs ys. xs ++ ys) (first_pages_lem account_id n size t small)
      (page_rows-take account_id n size t small)
    ∙ take-drop (n * size) size (votes_of account_id t.votes)
    ∙ ap (λ k. take k (votes_of account_id t.votes)) e

abbrev newer : Vote → Vote → Bool
newer a b = ltb b.created_at a.created_at

-- Where no two are of one time, not newer means older.
older :
    (x : Vote) (ys : List Vote)
    → ((time : ℕ) → count (λ v. v.created_at == time) (x ∷ ys) ≤ 1)
    → All (λ y. newer y x ≡ false) ys
    → All (λ y. y.created_at < x.created_at) ys
unfolding count
older x ys once h = go ys (let first = once x.created_at in ground (arith, first)) h
  where
    go :
        (zs : List Vote)
        → count (λ v. v.created_at == x.created_at) zs ≡ 0
        → All (λ y. newer y x ≡ false) zs
        → All (λ y. y.created_at < x.created_at) zs
    go [] e h = tt
    go (z ∷ zs) e h = (
      ground (arith, e, h.0),
      go zs
          (let rest : count (λ v. v.created_at == x.created_at) zs ≡ 0 = ground (arith, e) in rest)
          h.1,
    )

all_older :
    (xs : List Vote)
    → ((time : ℕ) → count (λ v. v.created_at == time) xs ≤ 1)
    → Ordered (λ x y. newer y x ≡ false) xs
    → Ordered (λ x y. y.created_at < x.created_at) xs
unfolding count
all_older [] once h = tt
all_older (x ∷ xs) once h =
    (older x xs once h.0, all_older xs (λ time. let all = once time in ground (arith, all)) h.1)

-- The votes of an account that are not deleted.
abbrev pub is_shown : ℤ → Vote → Bool
is_shown account_id v = v.account_id == account_id && is_none v.deleted_at

-- The first pages are the beginning of a list of the account's votes, each as often as in the table, with
-- every vote newer than all behind it.
pub record AreNewest (account_id : ℤ) (n size : ℕ) (t : VoteTables) : Type 0 where
  pub rows : List Vote
  pub shown : first_pages account_id n size t ≡ take (n * size) rows
  pub ordered : Ordered (λ a b. b.created_at < a.created_at) rows
  pub counts : (p : Vote → Bool) → count p rows ≡ count (λ v. is_shown account_id v && p v) t.votes

-- As long as offsets fit in 63 bits and no two of the account's votes that are not deleted are of one
-- time, the first pages of a size are one after the other the newest of these votes, from the newest
-- down: none is left out and none is shown twice.
pub first_pages-AreNewest :
    (account_id : ℤ) (n size : ℕ) (t : VoteTables)
    → n * size < 2 ^ 63
    → ((time : ℕ) → count (λ v. is_shown account_id v && v.created_at == time) t.votes ≤ 1)
    → AreNewest account_id n size t
first_pages-AreNewest account_id n size t h once =
    let live = filter (λ v. v.account_id == account_id && is_none v.deleted_at) t.votes in
    let counts : (p : Vote → Bool)
        → count p (votes_of account_id t.votes)
          ≡ count (λ v. is_shown account_id v && p v) t.votes =
      λ p. count-sort_by p newer live ∙ count-filter p (is_shown account_id) t.votes in
    record {
      rows = votes_of account_id t.votes;
      shown = first_pages_lem account_id n size t h;
      ordered =
          all_older (votes_of account_id t.votes)
            (λ time. rw (counts (λ v. v.created_at == time)) (once time))
            (IsSorted-Ordered newer (votes_of account_id t.votes)
              (λ x y z a b. ground (arith, a, b))
              (sort_by-IsSorted newer live (λ a b e. ground (arith, e))));
      counts = counts;
    }
