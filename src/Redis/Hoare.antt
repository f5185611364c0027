-- ===== src/Redis/Hoare.antt =====
-- Postconditions of a command to Redis.
use weiyeston.Base.{suc, ◌≡◌, refl, ap, ◌∙◌, Option, none, some, Bool, true, false, if◌then◌else◌}
use weiyeston.Http.{next, Response, World, Env}
use weiyeston.Http.Hoare.{Ensures}
use weiyeston.Redis.{command, receive}

module _ {T C D A : Type 0} where
  pub Ensures-command :
      (N : Option A → World T C → Type 0) (E : Response D → World T C → Type 0) (env : Env)
      (q : C → Option (A × C)) (w : World T C)
      → N none (record w { sent = suc w.sent })
      → ((a : A) (c : C)
          → q w.store ≡ some (a, c)
          → N (some a) (record w { store = c; sent = suc w.sent }))
      → Ensures N E (command env q w)
  Ensures-command N E env q w h k = go (env.fails w.sent) (q w.store) refl
    where
      go :
          (b : Bool) (o : Option (A × C))
          → q w.store ≡ o
          → Ensures N E (if b then next none (record w { sent = suc w.sent }) else receive w o)
      go true o e = h
      go false none e = h
      go false (some (a, c)) e = k a c e

  pub command_runs :
      (env : Env) (q : C → Option (A × C)) (w : World T C) {a : A} {c : C}
      → env.fails w.sent ≡ false
      → q w.store ≡ some (a, c)
      → command {D = D} env q w ≡ next (some a) (record w { store = c; sent = suc w.sent })
  command_runs env q w h k =
      ap (λ b. if b then next none (record w { sent = suc w.sent }) else receive w (q w.store)) h
      ∙ ap (receive w) k
