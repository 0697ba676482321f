-- ===== src/Gateway/Life/Issues.antt =====
-- Where the tokens in the table of src/bin/client_gateway.rs come from.
use Prim.Native.String.{String}
use mathlib.Core.Path.{subst}
use mathlib.Core.List.{Mem, mem-cons}
use mathlib.Core.Logic.Or
use capycoin.Base.{
  ℕ, ◌+◌, ◌*◌, ◌≡◌, Bool, true, false, Option, none, some, List, [], ◌∷◌, ◌++◌, ◌==◌, All,
  All-append, arith, filter, ltb,
}
use capycoin.Sqlite.{Outcome, ok, Engine, Conn, Sql, map_err, touch, select_from}
use capycoin.Sqlite.Keeps.{
  Kept, if-Kept, bind-Kept, from_outcome-Kept, statement-Kept, touch-Kept, transaction-Kept,
}
use capycoin.Database.{Uuid, Time, day}
use capycoin.Account.{AccountCreatedResult}
use capycoin.Auth.{
  AuthError, Token, AuthRow, AuthDatabase, Bcrypt, sql_error, add_time, or_crypt_error, new_token,
  insert_statement, create_token, validate_token, check_rows, judge, from_hex_string,
}
use capycoin.Auth.Create.{insert_statement-added, or_crypt_error-ok}
use capycoin.Message.{Result, create_new_account, create_new_account_response}
use capycoin.Gateway.Token.{bearer_token}
use capycoin.Gateway.Life.{Visit}
use capycoin.Gateway.{Libraries}
use capycoin.Gateway.Handlers.{send}

-- A row that one of the visits entered: its request came without a token, the core answered it with a
-- new account, the hash is that of the token which was drawn, and the expiry is thirty days after.
pub record Issued (lib : Libraries) (log : List Visit) (row : AuthRow) : Type 0 where
  pub visit : Visit
  pub logged : Mem visit log
  pub no_token : bearer_token visit.request.authorization ≡ none
  pub result : AccountCreatedResult
  pub created :
      (send lib visit.draw create_new_account visit.world).0
      ≡ ok (some (create_new_account_response (Result.ok result)))
  pub owner : row.account_id ≡ result.account_id
  pub hashed :
      lib.bcrypt.hash (new_token visit.draw.random).bytes visit.draw.salt ≡ some row.token_hash
  pub expires : row.expiry ≡ visit.draw.now + 30 * day

-- The table is there, and all of its rows were entered so.
abbrev pub Stored : Libraries → List Visit → AuthDatabase → Type 0
Stored lib log d = (rows : List AuthRow) × (d.auth ≡ some rows) × All (Issued lib log) rows

-- The rows stay accounted for after another visit.
pub Stored-cons :
    (lib : Libraries) (v : Visit) (log : List Visit) (d : AuthDatabase)
    → Stored lib log d
    → Stored lib (v ∷ log) d
Stored-cons lib v log d (rows, present, each) = (rows, present, go rows each)
  where
    go : (rows : List AuthRow) → All (Issued lib log) rows → All (Issued lib (v ∷ log)) rows
    go [] h = tt
    go (row ∷ rows) (i, h) = (
      record {
        visit = i.visit;
        logged = mem-cons.1 (Or.inr i.logged);
        no_token = i.no_token;
        result = i.result;
        created = i.created;
        owner = i.owner;
        hashed = i.hashed;
        expires = i.expires;
      },
      go rows h,
    )

add_time-ok :
    {E : Type 0} (t d e : Time) → ◌≡◌ {A = Outcome E Time} (add_time t d) (ok e) → e ≡ t + d
unfolding add_time
add_time-ok t d e h = ground arith

module _ (lib : Libraries) (log : List Visit) where
  insert-Stored :
      (row : AuthRow) (d d' : AuthDatabase)
      → Issued lib log row
      → Stored lib log d
      → insert_statement row d ≡ ok (tt, d')
      → Stored lib log d'
  insert-Stored row d d' issued (rows, was, each) h =
      let (old, was', added) = insert_statement-added row d d' h in
      let same : rows ≡ old = cc in
      (
        rows ++ row ∷ [],
        rw same added,
        All-append (Issued lib log) rows (row ∷ []) each (issued, tt),
      )

  pub create_token-Stored :
      (random : ℕ → ℕ) (salt : ℕ) (now : Time) (account_id : Uuid) (c : Conn AuthDatabase)
      → Stored lib log c.db
      → ((hash : String)
          → lib.bcrypt.hash (new_token random).bytes salt ≡ some hash
          → Issued lib log
              (record { token_hash = hash; account_id = account_id; expiry = now + 30 * day }))
      → Kept (Stored lib log) (create_token lib.engine lib.bcrypt random salt now account_id c)
  unfolding create_token
  create_token-Stored random salt now account_id c stored issued =
      transaction-Kept (Stored lib log) lib.engine sql_error _ c stored λ begun ready.
        from_outcome-Kept (Stored lib log) (add_time now (30 * day)) begun _ ready λ expiry in_time.
          from_outcome-Kept (Stored lib log)
            (or_crypt_error (lib.bcrypt.hash (new_token random).bytes salt)) begun _ ready
            λ hash hashed.
              let row : AuthRow = record {
                token_hash = hash;
                account_id = account_id;
                expiry = expiry;
              } in
              let row_issued : Issued lib log row =
                rw (add_time-ok now (30 * day) expiry in_time)
                  (issued hash (or_crypt_error-ok _ hashed)) in
              let inserted =
                statement-Kept (Stored lib log) lib.engine sql_error (insert_statement row) begun
                  ready λ _ d h. insert-Stored row begun.db d row_issued ready h in
              bind-Kept (Stored lib log) _ _ inserted λ _ _. inserted

select_from-same :
    {A B D : Type 0} (f : List A → B) (t : Option (List A)) (d : D) (b : B) (d' : D)
    → select_from f t d ≡ ok (b, d')
    → d ≡ d'
select_from-same f none d b d' h = cc
select_from-same f (some rows) d b d' h = cc

module _ (P : AuthDatabase → Type 0) (engine : Engine) where
  judge-Kept :
      (fits : Bool) (now expiry : Time) (next : Sql AuthDatabase AuthError Bool)
      (c : Conn AuthDatabase)
      → P c.db
      → Kept P (next c)
      → Kept P (judge fits now expiry next c)
  unfolding judge
  judge-Kept true now expiry next c h k = if-Kept P (ltb expiry now) _ _ c h h
  judge-Kept false now expiry next c h k = k

  check_rows-Kept :
      (bcrypt : Bcrypt) (now : Time) (token : Token) (checked : ℕ) (rows : List AuthRow)
      (c : Conn AuthDatabase)
      → P c.db
      → Kept P (check_rows engine bcrypt now token checked rows c)
  unfolding check_rows
  check_rows-Kept bcrypt now token checked [] c h =
      let touched = touch-Kept P engine sql_error c h in
      bind-Kept P (map_err sql_error (touch engine) c) _ touched
        λ _ _. if-Kept P (checked == 0) _ _ _ touched touched
  check_rows-Kept bcrypt now token checked (row ∷ rows) c h =
      let touched = touch-Kept P engine sql_error c h in
      bind-Kept P (map_err sql_error (touch engine) c) _ touched λ _ _.
        from_outcome-Kept P (or_crypt_error (bcrypt.verify token.bytes row.token_hash)) _ _ touched
          λ fits _.
            judge-Kept fits now row.expiry _ _ touched
              (check_rows-Kept bcrypt now token (checked + 1) rows _ touched)

  pub validate_token-Kept :
      (bcrypt : Bcrypt) (now : Time) (token_str : List ℕ) (account_id : Uuid)
      (c : Conn AuthDatabase)
      → P c.db
      → Kept P (validate_token engine bcrypt now token_str account_id c)
  unfolding validate_token
  validate_token-Kept bcrypt now token_str account_id c h =
      from_outcome-Kept P (from_hex_string token_str) c _ h λ provided _.
        let touched = touch-Kept P engine sql_error c h in
        bind-Kept P (map_err sql_error (touch engine) c) _ touched λ _ _.
          let owned = λ (d : AuthDatabase).
            select_from (filter (λ (r : AuthRow). r.account_id == account_id)) d.auth d in
          let selected =
            statement-Kept P engine sql_error owned _ touched
              λ rows d found. subst P (select_from-same _ _ _ rows d found) touched in
          bind-Kept P _ _ selected
            λ rows _. check_rows-Kept bcrypt now provided 0 (engine.scan AuthRow rows) _ selected
