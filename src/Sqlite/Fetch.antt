-- ===== src/Sqlite/Fetch.antt =====
-- Runs that only read: single statements, and the loop over a query's rows.
use mathlib.Core.Path.{ap₂}
use capycoin.Base.{◌≡◌, refl, sym, ◌∙◌, ◌≢◌, Option, none, some, List, [], ◌∷◌, map, ℕ}
use capycoin.Sqlite.{
  SqlError, Outcome, ok, err, panic, Conn, Sql, from_outcome, map_err, Engine, statement, answer,
  touch, fetch, Table, select_from,
}
use capycoin.Sqlite.Laws.{Settles, bind-Settles}

module _ {D A : Type 0} (before : D) (Q : A → D → Type 0) where
  answer-Settles :
      (fault : Option ℕ) (c : Conn D) (r : Outcome SqlError (A × D))
      → c.db ≡ before
      → r ≢ panic
      → ((a : A) (d : D) → r ≡ ok (a, d) → Q a d)
      → Settles before Q (answer fault c r)
  answer-Settles (some code) c r same np h = same
  answer-Settles none c (ok (a, d)) same np h = h a d refl
  answer-Settles none c (err e) same np h = same
  answer-Settles none c panic same np h = np refl

  -- A statement that fails changes nothing.
  pub statement-Settles :
      (engine : Engine) (f : D → Outcome SqlError (A × D)) (c : Conn D)
      → c.db ≡ before
      → f c.db ≢ panic
      → ((a : A) (d : D) → f c.db ≡ ok (a, d) → Q a d)
      → Settles before Q (statement engine f c)
  unfolding statement
  statement-Settles engine f c = answer-Settles (engine.fault c.calls) c (f c.db)

  pub map_err-Settles :
      {E F : Type 0} (lift : E → F) (m : Sql D E A) (c : Conn D)
      → Settles before Q (m c)
      → Settles before Q (map_err lift m c)
  unfolding map_err
  map_err-Settles lift m c = go (m c)
    where
      go :
          (r : Outcome _ A × Conn D)
          → Settles before Q r
          → Settles before Q (map_err lift (λ _. r) c)
      go (ok a, c) h = h
      go (err e, c) h = h
      go (panic, c) h = h

module _ {D E A : Type 0} (before : D) where
  pub from_outcome-Settles :
      (r : Outcome E A) (c : Conn D)
      → c.db ≡ before
      → r ≢ panic
      → Settles before (λ a d. (d ≡ before) × (r ≡ ok a)) (from_outcome r c)
  unfolding from_outcome
  from_outcome-Settles (ok a) c same np = (same, refl)
  from_outcome-Settles (err e) c same np = same
  from_outcome-Settles panic c same np = np refl

module _ (engine : Engine) {D : Type 0} (before : D) where
  pub touch-Settles :
      (c : Conn D) → c.db ≡ before → Settles before (λ _ d. d ≡ before) (touch engine c)
  unfolding touch
  touch-Settles c same =
      statement-Settles before (λ _ d. d ≡ before) engine (λ d. ok (tt, d)) c same (λ e. cc)
        (λ _ d e. let kept : c.db ≡ d = cc in sym kept ∙ same)

  -- The loop gives what `read` gives of each row, in the order of the rows.
  pub fetch-Settles :
      {R A : Type 0} (read : R → Outcome SqlError A) (rows : List R) (c : Conn D)
      → ((r : R) → read r ≢ panic)
      → c.db ≡ before
      → Settles before
          (λ res d. (d ≡ before) × (map read rows ≡ map ok res))
          (fetch engine read rows c)
  unfolding fetch
  fetch-Settles read [] c np same =
      bind-Settles before (λ _ d. d ≡ before) _ _ _ (touch-Settles c same)
        (λ _ c' same'. (same', refl))
  fetch-Settles read (row ∷ rows) c np same =
      bind-Settles before (λ _ d. d ≡ before) _ _ _ (touch-Settles c same)
        (λ _ c₁ same₁.
          bind-Settles before (λ a d. (d ≡ before) × (read row ≡ ok a)) _ _ _
            (from_outcome-Settles before (read row) c₁ same₁ (np row))
            (λ a c₂ (same₂, is_a).
              bind-Settles before (λ res d. (d ≡ before) × (map read rows ≡ map ok res)) _ _ _
                (fetch-Settles read rows c₂ np same₂)
                (λ res c₃ (same₃, are). (same₃, ap₂ ◌∷◌ is_a are))))

-- A query that reads a whole table, and no more.
module _ {D A B : Type 0} (f : List A → B) (d : D) where
  pub read_table :
      (table : Table A) (b : B) (d' : D)
      → select_from f table d ≡ ok (b, d')
      → (rows : List A) × (table ≡ some rows) × (b ≡ f rows) × (d' ≡ d)
  read_table none b d' e = cc
  read_table (some rows) b d' e = (rows, refl, cc, cc)

  pub read_table-ne-panic : (table : Table A) → select_from f table d ≢ panic
  read_table-ne-panic none e = cc
  read_table-ne-panic (some rows) e = cc
