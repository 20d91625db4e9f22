-- ===== src/Tests/Database/Laws.antt =====
-- That the table satisfies the laws of the database.
use mathlib.Core.List.{Memᴰ}
use mathlib.Core.Option
use mathlib.Core.Option.{some-injective, some-ne-none}
use multi_cloud_ai_orchestra.Base.{
  ◌≡◌, refl, sym, ap, ◌∙◌, subst, String, str_eq, eq_iff, Bool, true, false, ◌&&◌, List, [], ◌∷◌,
  Option, none, some, Result, ok, inl, inr, ◌⊎◌, Bool-cases, Option-cases, select, take, All,
  if◌then◌else◌, arith,
}
use multi_cloud_ai_orchestra.Base.Dict.{Dict, get, values}
use multi_cloud_ai_orchestra.Base.Keyed.{IsKeyed, get_of_mem}
use multi_cloud_ai_orchestra.Base.Held.{All-get, All-of_select, select-All, mem_of_select}
use multi_cloud_ai_orchestra.Base.Sort.{
  sort, IsTotal, IsSorted, sort-IsSorted, All-sort, All-of_sort, mem_of_sort,
}
use multi_cloud_ai_orchestra.Infrastructure.Postgres.{RepositoryError, Query, Model, IsTable}
use multi_cloud_ai_orchestra.Tests.Database.{
  IsServed, Table, Fits, session, first, arrange, revise, revise_all, written-fits, get_identity,
  get-revise_all, loaded,
}

module _ {Row : Type 0} (model : Model Row) (server : IsServed model) where
  pub loaded-some : (o : Option Row) (row : Row) → loaded model server o ≡ ok row → o ≡ some row
  loaded-some none row e = absurd cc
  loaded-some (some r) row e = cc

  pub first-select :
      (k : String) (d : Dict Row)
      → IsKeyed model.identity d
      → first (select (λ r. str_eq (model.identity r) k) (values d)) ≡ get k d
  unfolding values get
  first-select k [] h = refl
  first-select k ((j, r) ∷ d) h = elim (Bool-cases (str_eq j k)) [
    | inl t ↦ rw (h.0, t) refl
    | inr f ↦ rw (h.0, f) (first-select k d h.2)
  ]

  -- What the first row of a sorted listing is among the rows.
  abbrev pub FirstOf : (Row → Bool) → (Row → Row → Bool) → List Row → Option Row → Type 0
  FirstOf matches before rows found =
      ((found ≡ none) × All (λ x. matches x ≡ true → ⊥) rows)
      ⊎ ((r : Row) × (found ≡ some r)
          × Memᴰ r rows
          × (matches r ≡ true)
          × All (λ x. matches x ≡ true → before r x ≡ true) rows)

  module _ (matches : Row → Bool) (before : Row → Row → Bool) (laws : IsTotal before)
      (rows : List Row) where
    abbrev pub sorted_rows : List Row
    sorted_rows = sort before (select matches rows)

    reflexive : (r : Row) → before r r ≡ true
    reflexive r = elim (Bool-cases (before r r)) [ inl t ↦ t | inr f ↦ laws.total r r f ]

    of_sorted : (P : Row → Type 0) → All P sorted_rows → All (λ x. matches x ≡ true → P x) rows
    of_sorted P h = All-of_select P matches rows (All-of_sort before P (select matches rows) h)

    pub first-sort :
        (xs : List Row) → sorted_rows ≡ xs → FirstOf matches before rows (first (take 1 xs))
    first-sort [] e = inl (refl, of_sorted (λ x. ⊥) (subst (All (λ x. ⊥)) (sym e) tt))
    first-sort (r ∷ xs) e =
        let matching = subst (All (λ x. matches x ≡ true)) e (
          All-sort before (λ x. matches x ≡ true) (select matches rows)
            (select-All matches rows)) in
        let order = subst (IsSorted before) e (sort-IsSorted laws (select matches rows)) in
        inr (
          r,
          refl,
          mem_of_select matches r rows (
              mem_of_sort before r (select matches rows) (subst (Memᴰ r) (sym e) (Memᴰ.head refl))),
          matching.0,
          of_sorted (λ x. before r x ≡ true)
              (subst (All (λ x. before r x ≡ true)) (sym e) (reflexive r, order.0)),
        )

  revise-agrees :
      (matches : Row → Bool) (change : Row → Row) (r : Row)
      → model.identity (change r) ≡ model.identity r
      → (matches r ≡ true → model.fits (change r) ≡ true)
      → revise model server matches change r ≡ (if matches r then model.updated 7 (change r) else r)
  revise-agrees matches change r same fits =
      ground (arith, eq_iff (model.identity (change r)) (model.identity r))

  pub updates :
      (matches : Row → Bool) (change : Row → Row) (s : Table model server)
      → ((r : Row) → model.identity (change r) ≡ model.identity r)
      → ((k : String) (r : Row)
          → get k s.rows ≡ some r
          → matches r ≡ true
          → model.fits (change r) ≡ true)
      → (k : String)
      → get k (revise_all model server (revise model server matches change) s.rows)
        ≡ Option.map (λ r. if matches r then model.updated 7 (change r) else r) (get k s.rows)
  updates matches change s same fits k =
      get-revise_all model server (revise model server matches change) k s.rows
      ∙ elim (Option-cases (get k s.rows)) [
        | inl e ↦ rw e refl
        | inr (x, e) ↦ rw e (ap some (revise-agrees matches change x (same x) (fits k x e)))
      ]

  pub arrange-first :
      (q : Query Row) (before : Row → Row → Bool) (d : Dict Row)
      → q.order_by ≡ some before
      → q.limit ≡ some 1
      → q.offset ≡ 0
      → first (arrange model server q d)
        ≡ first (take 1 (sort before (select q.matches (values d))))
  arrange-first q before d o l z = rw (o, l, z) refl

  pub finds :
      (q : Query Row) (before : Row → Row → Bool) (s : Table model server)
      → FirstOf q.matches before (values s.rows) (first (arrange model server q s.rows))
      → ((◌≡◌ {A = Result RepositoryError (Option Row)}
            (ok (first (arrange model server q s.rows)))
            (ok none))
          × ((k : String) (r : Row)
              → get k s.rows ≡ some r
              → (q.skip_locked && false) ≡ false
              → q.matches r ≡ false))
        ⊎ ((r : Row) × (◌≡◌ {A = Result RepositoryError (Option Row)}
              (ok (first (arrange model server q s.rows)))
              (ok (some r)))
            × (get (model.identity r) s.rows ≡ some r)
            × (q.matches r ≡ true)
            × ((k : String) (other : Row)
                → get k s.rows ≡ some other
                → (q.skip_locked && false) ≡ false
                → q.matches other ≡ true
                → before r other ≡ true))
  finds q before s (inl (e, nothing)) = inl (
    ap ok e,
    λ k r found unlocked. elim (Bool-cases (q.matches r)) [
      | inl t ↦ absurd (All-get (λ x. q.matches x ≡ true → ⊥) k r s.rows found nothing t)
      | inr f ↦ f
    ],
  )
  finds q before s (inr (r, e, member, matching, order)) = inr (
    r,
    ap ok e,
    get_of_mem model.identity s.rows r s.keyed member,
    matching,
    λ k other found unlocked.
        All-get (λ x. q.matches x ≡ true → before r x ≡ true) k other s.rows found order,
  )

  -- The laws of the database, for this table.
  unfoldable pub table : IsTable model (session model server)
  table = record {
    lookup = λ s k. get k s.rows;
    locked = λ s k. false;
    server_now = λ s. 7;
    keyed = λ k r s e. get_identity model server k r s.rows s.keyed e;
    rows_fit = λ k r s e. All-get (Fits model server) k r s.rows e s.fitting;
    by_identity = λ k s. ap (λ o. (ok o, s)) (first-select k s.rows s.keyed);
    add_new = λ r s fits alone.
        let (done, rows) =
          written-fits model server (model.inserted 7 r) s (model.fits (model.inserted 7 r)) refl
            (server.inserted_fits 7 r fits) in
        (done, λ k. rows k ∙ rw (server.inserted_identity 7 r) refl);
    update_rows =
        λ matches change s same_id same_clash fits. (refl, updates matches change s same_id fits);
    first_row = λ q before s laws o l z. (
      λ k. refl,
      finds q before s (
          subst (FirstOf q.matches before (values s.rows))
            (sym (arrange-first q before s.rows o l z))
            (first-sort q.matches before laws (values s.rows)
              (sort before (select q.matches (values s.rows))) refl)),
    );
    flush_object = λ r old s found fits same.
        let (done, rows) =
          written-fits model server (model.updated 7 r) s (model.fits (model.updated 7 r)) refl
            (server.updated_fits 7 r fits) in
        (done, λ k. rows k ∙ rw (server.updated_identity 7 r) refl);
    read_attributes = λ r s. (
      λ k. refl,
      λ row e.
          get_identity model server (model.identity r) row s.rows s.keyed
            (loaded-some (get (model.identity r) s.rows) row e),
    );
  }
