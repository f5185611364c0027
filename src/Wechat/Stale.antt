-- ===== src/Wechat/Stale.antt =====
-- HandleUpdateAuthorized of internal/service/wechat/wechat.go: what is left of the tokens that it writes.
use weiyeston.Base.{
  ℕ, suc, ◌+◌, ◌*◌, Bool, true, false, ◌&&◌, Option, none, some, is_none, List, [], ◌∷◌, ℤ, Text,
  codes, text_eq, ◌==◌, ◌≡◌, ◌≢◌, refl, sym, ap, ◌∙◌, arith, text_beq_iff, if◌then◌else◌, All, find,
  update_where, count, some_injective,
}
use mathlib.Core.Path.{subst}
use weiyeston.Http.{Env, Run, World, next, ignore, or_fail, statement}
use weiyeston.Http.Forward.{>>=-of-next, >>-of-next, or_fail-of-next, statement_runs}
use weiyeston.Account.{
  WechatAccount, AccountTables, is_live, is_text, is_index, app_id_key, authorizer_key, admitted,
}
use weiyeston.Account.Repo.{
  get_by_authorizer_appid, update_live, update_token, update, with_tokens, rewritten,
}
use weiyeston.Redis.{Redis}
use weiyeston.Config.{WechatConfig}
use weiyeston.Wechat.{W, error, lift}
use weiyeston.Wechat.Tokens.{second}
use weiyeston.Wechat.Events.{handle_update_authorized, token_for, updated_func_info}

abbrev pub is_authorizer : Text → WechatAccount → Bool
is_authorizer appid a = is_text appid a.authorizer_appid && is_none a.deleted_at

-- The columns of an account's tokens.
pub record HasTokensOf (a b : WechatAccount) : Type 0 where
  pub same_access : b.access_token ≡ a.access_token
  pub same_refresh : b.refresh_token ≡ a.refresh_token
  pub same_expiry : b.token_expire_at ≡ a.token_expire_at
  pub same_status : b.auth_status ≡ a.auth_status

module _ {A : Type 0} (p : A → Bool) (f : A → A) (Q : A → Type 0) (k : (x : A) → Q (f x)) where
  All-of-update_where : (xs : List A) → All (λ x. p x ≡ true → Q x) (update_where p f xs)
  unfolding update_where
  All-of-update_where [] = tt
  All-of-update_where (x ∷ xs) = (go (p x) refl, All-of-update_where xs)
    where
      go : (b : Bool) → p x ≡ b → p (if b then f x else x) ≡ true → Q (if b then f x else x)
      go true e h = k x
      go false e h = absurd (cc (e, h))

module _ (id : ℤ) (f : WechatAccount → WechatAccount) (now : ℕ) where
  update_live-rows :
      (t t' : AccountTables) (rows : ℕ)
      → update_live now id f t ≡ some (rows, t')
      → t'.accounts ≡ update_where (is_live id) f t.accounts
  unfolding update_live admitted
  update_live-rows t t' rows h =
      go (is_index app_id_key changed && is_index authorizer_key changed) h
    where
      changed : List WechatAccount
      changed = update_where (is_live id) f t.accounts

      go :
          (b : Bool)
          → if◌then◌else◌ {A = Option (ℕ × AccountTables)} b
              (some (count (is_live id) t.accounts, record t { accounts = changed }))
              none
            ≡ some (rows, t')
          → t'.accounts ≡ changed
      go true h = ap (λ p. p.1.accounts) (sym (some_injective h))
      go false h = absurd (cc h)

module _ {C : Type 0} where
  abbrev accounts_of : W C → World AccountTables (List (Text × Text))
  accounts_of w = record { tables = w.tables.accounts; sent = w.sent; store = [] }

  lift_runs :
      {A : Type 0}
      (m : World AccountTables (List (Text × Text))
        → Run (World AccountTables (List (Text × Text))) (Unit {0}) A)
      (w : W C) {a : A} {t : World AccountTables (List (Text × Text))}
      → m (accounts_of w) ≡ next a t
      → lift m w
        ≡ next a (record w { tables = record w.tables { accounts = t.tables }; sent = t.sent })
  lift_runs m w h = rw (h, lift) refl

  module _ (env : Env) (w : W C) (appid : Text) (a : WechatAccount) where
    abbrev pub Found : Type 0
    Found = find (is_authorizer appid) w.tables.accounts.accounts ≡ some a

    found_runs :
        appid ≢ []
        → env.fails w.sent ≡ false
        → Found
        → lift (get_by_authorizer_appid env appid) w
          ≡ next (some (some a)) (record w { sent = suc w.sent })
    unfolding get_by_authorizer_appid
    found_runs n up h =
        let filled : (appid == []) ≡ false = ground (arith, n, text_beq_iff appid []) in
        lift_runs (get_by_authorizer_appid env appid) w (
          ap
            (λ b.
              if b
              then next none (accounts_of w)
              else statement env (λ t. some (find (is_authorizer appid) t.accounts, t))
                  (accounts_of w))
            filled
          ∙ statement_runs env (λ t. some (find (is_authorizer appid) t.accounts, t))
              (accounts_of w) up (ap (λ o. some (o, w.tables.accounts)) h))

  token_runs :
      (env : Env) (w : W C) (id : ℤ) (access refresh : Text) (end : ℕ) {rows : ℕ}
      {t : AccountTables}
      → env.fails w.sent ≡ false
      → update_live env.now id (with_tokens env.now access refresh end) w.tables.accounts
        ≡ some (rows, t)
      → lift (update_token env id access refresh end) w
        ≡ next (some tt) (record w { tables = record w.tables { accounts = t }; sent = suc w.sent })
  unfolding update_token
  token_runs env w id access refresh end up h =
      lift_runs (update_token env id access refresh end) w (
        >>=-of-next
          (statement env (update_live env.now id (with_tokens env.now access refresh end))) _
          (accounts_of w)
          (statement_runs env (update_live env.now id (with_tokens env.now access refresh end))
            (accounts_of w) up h))

  update_runs :
      (env : Env) (w : W C) (a : WechatAccount) {rows : ℕ} {t : AccountTables}
      → env.fails w.sent ≡ false
      → update_live env.now a.id (rewritten env.now a) w.tables.accounts ≡ some (rows, t)
      → ignore {D = Unit {0}} (lift (update env a)) w
        ≡ next tt (record w { tables = record w.tables { accounts = t }; sent = suc w.sent })
  unfolding update
  update_runs env w a up h =
      ap (λ r. ignore {D = Unit {0}} (λ (w : W C). r) w)
        (lift_runs (update env a) w (
          >>=-of-next (statement env (update_live env.now a.id (rewritten env.now a))) _
            (accounts_of w)
            (statement_runs env (update_live env.now a.id (rewritten env.now a)) (accounts_of w) up
              h)))

module _ {C : Type 0} (redis : Redis C) (config : WechatConfig) (env : Env) (w : W C) (appid : Text)
    (a : WechatAccount) where
  abbrev pub new_tokens : WechatAccount → WechatAccount
  new_tokens =
      with_tokens env.now (token_for (codes "updated_token_") appid env.now)
        (token_for (codes "updated_refresh_") appid env.now) (env.now + 7200 * second)

  abbrev pub old_row : WechatAccount → WechatAccount
  old_row = rewritten env.now (record a { func_info = some updated_func_info })

  -- Where an account has the AppId, no statement fails and the database takes both updates, the event
  -- updateauthorized ends without an error and leaves the account with the tokens, the expiry and the
  -- status from before the event: UpdateToken writes new ones, and Update then writes the whole row
  -- that was read before it.
  pub handle_update_authorized-HasTokensOf :
      {rows rows' : ℕ} {t t' : AccountTables}
      → appid ≢ []
      → find (is_authorizer appid) w.tables.accounts.accounts ≡ some a
      → env.fails w.sent ≡ false
      → env.fails (suc w.sent) ≡ false
      → env.fails (suc (suc w.sent)) ≡ false
      → update_live env.now a.id new_tokens w.tables.accounts ≡ some (rows, t)
      → update_live env.now a.id old_row t ≡ some (rows', t')
      → (w' : W C) × (handle_update_authorized redis config env appid w ≡ next tt w')
        × All (λ b. is_live a.id b ≡ true → HasTokensOf a b) w'.tables.accounts.accounts
  unfolding handle_update_authorized
  handle_update_authorized-HasTokensOf {rows' = rows'} {t = t} {t' = t'} n found up up' up'' h k =
      let w1 : W C = record w { sent = suc w.sent } in
      let w2 : W C = record w1 {
        tables = record w.tables { accounts = t };
        sent = suc (suc w.sent);
      } in
      let written = lift (
        update_token env a.id (token_for (codes "updated_token_") appid env.now)
          (token_for (codes "updated_refresh_") appid env.now) (env.now + 7200 * second)) in
      let row = record a { func_info = some updated_func_info } in
      (
        record w2 { tables = record w.tables { accounts = t' }; sent = suc (suc (suc w.sent)) },
        >>=-of-next (lift (get_by_authorizer_appid env appid)) _ w
              (found_runs env w appid a n up found)
            ∙ >>-of-next (or_fail written (error "更新授权令牌失败")) (ignore (lift (update env row))) w1
                (or_fail-of-next written (error "更新授权令牌失败") w1 (token_runs env w1 a.id _ _ _ up' h))
            ∙ update_runs env w2 row up'' k,
        subst (All (λ b. is_live a.id b ≡ true → HasTokensOf a b))
            (sym (update_live-rows a.id old_row env.now t t' rows' k))
            (All-of-update_where (is_live a.id) old_row (HasTokensOf a)
              (λ x. record {
                same_access = refl;
                same_refresh = refl;
                same_expiry = refl;
                same_status = refl;
              })
              t.accounts),
      )
