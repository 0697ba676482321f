-- ===== src/Auth/Create.antt =====
-- `create_token` of src/auth.rs.
use Prim.Native.String.{String}
use capycoin.Base.{
  ℕ, ◌+◌, ◌*◌, ◌<◌, ◌≡◌, ◌≢◌, refl, true, Option, none, some, List, [], ◌∷◌, ◌++◌, arith, ap, inl,
  inr, Option-cases, ◌∙◌, sym,
}
use capycoin.Sqlite.{Outcome, ok, panic, Engine, Conn}
use capycoin.Sqlite.Laws.{
  Settles, transaction-Settles, statement_then, from_outcome-Ensures, from_outcome_then,
}
use capycoin.Database.{Uuid, Time, day}
use capycoin.Auth.{
  Token, AuthRow, AuthDatabase, Bcrypt, TokenCreatedResult, sql_error, or_crypt_error, add_time,
  time_max, new_token, to_string, insert_statement, create_token,
}

-- What a successful `create_token` added: a row of the account whose hash fits the token that is
-- returned, with the expiry that is returned, thirty days from now.
pub record Created (bcrypt : Bcrypt) (token : Token) (now : Time) (account_id : Uuid)
    (res : TokenCreatedResult) (before after : AuthDatabase) : Type 0 where
  pub rows : List AuthRow
  pub hash : String
  pub was : before.auth ≡ some rows
  pub fits : bcrypt.verify token.bytes hash ≡ some true
  pub result :
      res ≡ record { token = to_string token; account_id = account_id; expiry = now + 30 * day }
  pub added :
      after.auth
      ≡ some (
          rows
          ++ record { token_hash = hash; account_id = account_id; expiry = now + 30 * day } ∷ [])

insert_statement-ne-panic : (r : AuthRow) (d : AuthDatabase) → insert_statement r d ≢ panic
insert_statement-ne-panic r d h = ground arith

pub insert_statement-added :
    (r : AuthRow) (d d' : AuthDatabase)
    → insert_statement r d ≡ ok (tt, d')
    → (rows : List AuthRow) × (d.auth ≡ some rows) × (d'.auth ≡ some (rows ++ r ∷ []))
insert_statement-added r d d' h = elim (Option-cases d.auth) [
  | inl missing ↦ ground arith
  | inr (rows, present) ↦ (rows, present, ground arith)
]

pub or_crypt_error-ne-panic : {A : Type 0} (o : Option A) → or_crypt_error o ≢ panic
or_crypt_error-ne-panic none h = cc
or_crypt_error-ne-panic (some a) h = cc

pub or_crypt_error-ok : {A : Type 0} (o : Option A) {a : A} → or_crypt_error o ≡ ok a → o ≡ some a
or_crypt_error-ok none h = cc
or_crypt_error-ok (some a) h = cc

add_time_ok :
    {E : Type 0} (t d : Time)
    → t + d < time_max
    → ◌≡◌ {A = Outcome E Time} (add_time t d) (ok (t + d))
unfolding add_time
add_time_ok t d h = ground arith

-- Whatever calls fail, and whether the hash is made or not, `create_token` adds exactly the row of
-- `Created`, or returns an error and the table is as it was; before the end of the year 9999 it does
-- not panic.
pub create_token-Settles :
    (engine : Engine) (bcrypt : Bcrypt) (random : ℕ → ℕ) (salt : ℕ) (now : Time) (account_id : Uuid)
    (c : Conn AuthDatabase)
    → now + 30 * day < time_max
    → Settles c.db
        (λ res after. Created bcrypt (new_token random) now account_id res c.db after)
        (create_token engine bcrypt random salt now account_id c)
unfolding create_token
create_token-Settles engine bcrypt random salt now account_id c in_time =
    let token = new_token random in
    transaction-Settles engine _ sql_error _ c (λ begun same.
      from_outcome_then _ (add_time now (30 * day)) (now + 30 * day) begun _
        (add_time_ok now (30 * day) in_time)
        (from_outcome-Ensures _ (or_crypt_error (bcrypt.hash token.bytes salt)) begun _
          (or_crypt_error-ne-panic _)
          (λ hash hashed.
            statement_then engine _ sql_error _ begun _ (insert_statement-ne-panic _ begun.db)
              (λ _ c' inserted.
                let (rows, was, added) = insert_statement-added _ begun.db c'.db inserted in
                record {
                  rows = rows;
                  hash = hash;
                  was = ap (λ (d : AuthDatabase). d.auth) (sym same) ∙ was;
                  fits = bcrypt.verifies token.bytes salt hash (or_crypt_error-ok _ hashed);
                  result = refl;
                  added = added;
                }))))
