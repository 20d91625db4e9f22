-- ===== src/Tests/Database.antt =====
-- A table in memory that satisfies the laws of the database, for any of the models: it keeps its
-- rows under their primary keys, its clock stands still, and no other transaction runs.
pub mod Laws
use mathlib.Core.List.{Memᴰ}
use mathlib.Core.Option
use mathlib.Core.Option.{some-injective, some-ne-none}
use multi_cloud_ai_orchestra.Base.{
  ◌≡◌, refl, sym, ap, ◌∙◌, subst, ℕ, String, str_eq, eq_iff, Bool, true, false, ◌&&◌, List, [], ◌∷◌,
  Option, none, some, Method, Result, ok, raised, inl, inr, ◌⊎◌, Bool-cases, Option-cases, select,
  take, drop, length, All, All-map, if◌then◌else◌, arith,
}
use multi_cloud_ai_orchestra.Base.Dict.{Dict, get, put, values, get-put}
use multi_cloud_ai_orchestra.Base.Keyed.{IsKeyed, store-IsKeyed, get_of_mem}
use multi_cloud_ai_orchestra.Base.Held.{All-put}
use multi_cloud_ai_orchestra.Base.Sort.{
  sort, IsTotal, IsSorted, sort-IsSorted, All-sort, All-of_sort, mem_of_sort,
}
use multi_cloud_ai_orchestra.Infrastructure.Postgres.{
  RepositoryError, database_error, Query, Session, Model, IsTable, select_where,
}

-- `first` and the page of a listing.
abbrev pub first : {V : Type 0} → List V → Option V
first [] = none
first (x ∷ xs) = some x

abbrev pub limited : {V : Type 0} → Option ℕ → List V → List V
limited none xs = xs
limited (some n) xs = take n xs

abbrev pub ordered : {V : Type 0} → Option (V → V → Bool) → List V → List V
ordered none xs = xs
ordered (some before) xs = sort before xs

-- A model whose server values keep the primary key and fit the columns.
pub record IsServed {Row : Type 0} (model : Model Row) : Type 0 where
  pub inserted_identity : (t : ℕ) (r : Row) → model.identity (model.inserted t r) ≡ model.identity r
  pub updated_identity : (t : ℕ) (r : Row) → model.identity (model.updated t r) ≡ model.identity r
  pub inserted_fits :
      (t : ℕ) (r : Row) → model.fits r ≡ true → model.fits (model.inserted t r) ≡ true
  pub updated_fits : (t : ℕ) (r : Row) → model.fits r ≡ true → model.fits (model.updated t r) ≡ true

module _ {Row : Type 0} (model : Model Row) (server : IsServed model) where
  abbrev pub Fits : Row → Type 0
  Fits r = model.fits r ≡ true

  pub record Table : Type 0 where
    pub rows : Dict Row
    pub keyed : IsKeyed model.identity rows
    pub fitting : All Fits (values rows)

  unfoldable pub empty : Table
  unfolding values
  empty = record { rows = []; keyed = tt; fitting = tt }

  -- A row that fits is written under its key.
  abbrev pub written :
      (r : Row) → Table → (b : Bool) → model.fits r ≡ b → Result RepositoryError (Unit {0}) × Table
  written r s true fits = (
    ok tt,
    record {
      rows = put (model.identity r) r s.rows;
      keyed = store-IsKeyed model.identity r s.rows s.keyed;
      fitting = All-put Fits (model.identity r) r s.rows fits s.fitting;
    },
  )
  written r s false unfit = (raised database_error, s)

  abbrev pub write : Row → Table → Result RepositoryError (Unit {0}) × Table
  write r s = written r s (model.fits r) refl

  pub written-fits :
      (r : Row) (s : Table) (b : Bool) (e : model.fits r ≡ b)
      → b ≡ true
      → ((written r s b e).0 ≡ ok tt)
        × ((k : String)
            → get k (written r s b e).1.rows
              ≡ (if str_eq (model.identity r) k then some r else get k s.rows))
  written-fits r s true e h = (refl, λ k. get-put (model.identity r) k r s.rows)
  written-fits r s false e h = absurd cc

  pub get_identity :
      (k : String) (r : Row) (d : Dict Row)
      → IsKeyed model.identity d
      → get k d ≡ some r
      → model.identity r ≡ k
  unfolding get
  get_identity k r [] h e = absurd (some-ne-none r (sym e))
  get_identity k r ((j, w) ∷ d) h e = elim (Bool-cases (str_eq j k)) [
    | inl t ↦
        subst (λ x. model.identity x ≡ k) (some-injective w r (rw t at e)) (h.0 ∙ (eq_iff j k).0 t)
    | inr f ↦ get_identity k r d h.2 (rw f at e)
  ]

  -- The values that an update gives a row, if it may take them.
  abbrev pub revise : (Row → Bool) → (Row → Row) → Row → Row
  revise matches change r =
      if matches r && model.fits (change r) && str_eq (model.identity (change r)) (model.identity r)
      then model.updated 7 (change r)
      else r

  pub revise-identity :
      (matches : Row → Bool) (change : Row → Row) (r : Row)
      → model.identity (revise matches change r) ≡ model.identity r
  revise-identity matches change r = ground (
    arith,
    server.updated_identity 7 (change r),
    eq_iff (model.identity (change r)) (model.identity r),
  )

  pub revise-Fits :
      (matches : Row → Bool) (change : Row → Row) (r : Row)
      → Fits r
      → Fits (revise matches change r)
  revise-Fits matches change r h = ground (arith, server.updated_fits 7 (change r), h)

  abbrev pub revise_all : (Row → Row) → Dict Row → Dict Row
  revise_all f [] = []
  revise_all f ((k, r) ∷ d) = (k, f r) ∷ revise_all f d

  pub get-revise_all :
      (f : Row → Row) (k : String) (d : Dict Row) → get k (revise_all f d) ≡ Option.map f (get k d)
  unfolding get
  get-revise_all f k [] = refl
  get-revise_all f k ((j, r) ∷ d) = elim (Bool-cases (str_eq j k)) [
    | inl t ↦ rw t refl
    | inr e ↦ rw e (get-revise_all f k d)
  ]

  pub revise_all-IsKeyed :
      (f : Row → Row) (d : Dict Row)
      → ((r : Row) → model.identity (f r) ≡ model.identity r)
      → IsKeyed model.identity d
      → IsKeyed model.identity (revise_all f d)
  revise_all-IsKeyed f [] h g = tt
  revise_all-IsKeyed f ((j, r) ∷ d) h g =
      (h r ∙ g.0, get-revise_all f j d ∙ rw g.1 refl, revise_all-IsKeyed f d h g.2)

  pub revise_all-All :
      (f : Row → Row) (d : Dict Row)
      → ((r : Row) → Fits r → Fits (f r))
      → All Fits (values d)
      → All Fits (values (revise_all f d))
  unfolding values
  revise_all-All f [] h g = tt
  revise_all-All f ((j, r) ∷ d) h g = (h r g.0, revise_all-All f d h g.1)

  abbrev pub arrange : Query Row → Dict Row → List Row
  arrange q d = limited q.limit (drop q.offset (ordered q.order_by (select q.matches (values d))))

  abbrev pub loaded : Option Row → Result RepositoryError Row
  loaded none = raised database_error
  loaded (some row) = ok row

  abbrev pub session : Session Table Row
  session = record {
    add = λ r s. write (model.inserted 7 r) s;
    scalars = λ q s. (ok (arrange q s.rows), s);
    scalar_one_or_none = λ q s. (ok (first (arrange q s.rows)), s);
    count = λ matches s. (ok (length (select matches (values s.rows))), s);
    update = λ matches change s. (
      ok tt,
      record {
        rows = revise_all (revise matches change) s.rows;
        keyed =
            revise_all-IsKeyed (revise matches change) s.rows (revise-identity matches change)
              s.keyed;
        fitting =
            revise_all-All (revise matches change) s.rows (revise-Fits matches change) s.fitting;
      },
    );
    flush = λ r s. write (model.updated 7 r) s;
    attributes = λ r s. (loaded (get (model.identity r) s.rows), s);
  }
