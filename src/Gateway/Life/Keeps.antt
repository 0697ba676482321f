-- ===== src/Gateway/Life/Keeps.antt =====
-- The invariant of the table of tokens over the life of src/bin/client_gateway.rs.
use mathlib.Core.Path.{subst}
use mathlib.Core.List.{mem-cons}
use mathlib.Core.Logic.Or
use capycoin.Base.{◌≡◌, refl, ◌⊎◌, inl, inr, Bool, true, false, none, List, [], ◌∷◌, sym, arith}
use capycoin.Sqlite.{unwrapped, is_ok, Outcome, ok, err, panic, Conn, bind, from_outcome}
use capycoin.Sqlite.Laws.{Settles, transaction-Settles, statement_then, touch-Ensures, bind-Ensures}
use capycoin.Auth.{AuthError, AuthDatabase, sql_error, create_auth, create_auth_table}
use capycoin.Gateway.{Libraries}
use capycoin.Gateway.Life.{Visit, Starts, must, make_table, Life, empty, begin, serve, stop}
use capycoin.Gateway.Life.Served.{router-Stands}
use capycoin.Gateway.Life.Issues.{Stored, Stored-cons}

-- While a process serves, the table is there and each of its rows was issued; otherwise it may also
-- be missing.
abbrev pub Keeps : Libraries → List Visit → Bool → AuthDatabase → Type 0
Keeps lib log true d = Stored lib log d
Keeps lib log false d = (d.auth ≡ none) ⊎ Stored lib log d

module _ (lib : Libraries) (log : List Visit) where
  create_auth-Stored :
      (d d' : AuthDatabase)
      → Keeps lib log false d
      → create_auth d ≡ ok (tt, d')
      → Stored lib log d'
  create_auth-Stored d d' (inl missing) h = ([], ground arith, tt)
  create_auth-Stored d d' (inr (rows, present, each)) h = (rows, ground arith, each)

  create_auth-ne-panic : (d : AuthDatabase) → ◌≡◌ (create_auth d) panic → ⊥
  create_auth-ne-panic d h = ground arith

  create_auth_table-Settles :
      (c : Conn AuthDatabase)
      → Keeps lib log false c.db
      → Settles c.db (λ _ d. Stored lib log d) (create_auth_table lib.engine c)
  unfolding create_auth_table
  create_auth_table-Settles c stored = transaction-Settles lib.engine _ sql_error _ c λ begun same.
      statement_then lib.engine _ sql_error create_auth begun _ (create_auth-ne-panic begun.db)
        λ _ c' made.
          let ready =
            create_auth-Stored begun.db c'.db (subst (Keeps lib log false) (sym same) stored)
              made in
          bind-Ensures (λ _ d. Stored lib log d) _ _ _
            (touch-Ensures lib.engine (λ _ d. Stored lib log d) sql_error c' ready)
            λ _ c'' still. touch-Ensures lib.engine (λ _ d. Stored lib log d) sql_error c'' still

  closed-Keeps :
      (before : AuthDatabase) (closes : Bool) (r : Outcome AuthError (Unit {0}) × Conn AuthDatabase)
      → Keeps lib log false before
      → Settles before (λ _ d. Stored lib log d) r
      → (let end = bind {E = AuthError} (unwrapped r.0, r.1) (λ _. from_outcome (must closes)) in
          Keeps lib log (is_ok end) end.1.db)
  unfolding bind from_outcome
  closed-Keeps before true (ok a, c) was h = h
  closed-Keeps before false (ok a, c) was h = inr h
  closed-Keeps before closes (err e, c) was h = subst (Keeps lib log false) (sym h) was
  closed-Keeps before closes (panic, c) was h = absurd h

  make_table-Keeps :
      (starts : Starts) (c : Conn AuthDatabase)
      → Keeps lib log false c.db
      → Keeps lib log (is_ok (make_table lib.engine starts c)) (make_table lib.engine starts c).1.db
  unfolding make_table bind from_outcome
  make_table-Keeps starts c stored = go starts.opens
    where
      go :
          (opens : Bool)
          → (let end = bind (from_outcome (must opens) c) (λ _ c.
                bind
                  (let (r, c') = create_auth_table lib.engine c in (unwrapped r, c'))
                  (λ _. from_outcome (must starts.closes))) in
              Keeps lib log (is_ok end) end.1.db)
      go true = closed-Keeps c.db starts.closes _ stored (create_auth_table-Settles c stored)
      go false = stored

-- Every table of tokens that the gateway comes to from an empty file, whatever requests come, whatever
-- fails, and whether the handling of a request panics: while a process serves requests the table is
-- there, and otherwise it is missing or there; and each of its rows (`Issued`) was entered by one of the
-- requests that were served: it came without a token, the core answered it with a new account, which
-- is the row's, the row has the hash of the token that was drawn for it, and expires thirty days after
-- its time.
pub Life-Keeps :
    (lib : Libraries) (log : List Visit) (serving : Bool) (d : AuthDatabase)
    → Life lib serving log d
    → Keeps lib log serving d
Life-Keeps lib _ _ d (empty missing) = inl missing
Life-Keeps lib log _ d (begin starts c l is_serving is_d) =
    subst (λ b. Keeps lib log b d) is_serving
      (subst (Keeps lib log (is_ok (make_table lib.engine starts c))) is_d
        (make_table-Keeps lib log starts c (Life-Keeps lib log false c.db l)))
Life-Keeps lib _ _ d (serve {log} v l is_d) = subst (Stored lib (v ∷ log)) is_d (
    router-Stands lib (v ∷ log) v.draw v.request v.world (mem-cons.1 (Or.inl refl))
      (Stored-cons lib v log v.world.db.auth (Life-Keeps lib log true v.world.db.auth l)))
Life-Keeps lib log _ d (stop l) = inr (Life-Keeps lib log true d l)
