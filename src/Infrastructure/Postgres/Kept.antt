-- ===== src/Infrastructure/Postgres/Kept.antt =====
-- What a table holds after a row was added and then updated under its primary key.
use mathlib.Core.Option
use mathlib.Core.Option.{some-injective}
use multi_cloud_ai_orchestra.Base.{
  ◌≡◌, ◌≢◌, refl, sym, ap, ◌∙◌, subst, String, str_eq, eq_iff, Bool, true, false, some, ok, inl,
  inr, Bool-cases, Option-cases, if◌then◌else◌,
}
use multi_cloud_ai_orchestra.Infrastructure.Postgres.{Session, Model, IsTable}

pub str_eq-same : (k : String) → str_eq k k ≡ true
str_eq-same k = (eq_iff k k).1 refl

pub str_eq-different : (j k : String) → k ≢ j → str_eq j k ≡ false
str_eq-different j k n = elim (Bool-cases (str_eq j k)) [
  | inl t ↦ absurd (n (sym ((eq_iff j k).0 t)))
  | inr f ↦ f
]

module _ {S Row : Type 0} (model : Model Row) (session : Session S Row)
    (table : IsTable model session) (r : Row) (s : S) (fits : model.fits r ≡ true)
    (alone : (k : String) (old : Row)
      → table.lookup s k ≡ some old
      → model.clashes r old ≡ false) where
  abbrev pub after_add : S
  after_add = (session.add r s).1

  abbrev pub new_row : Row
  new_row = model.inserted (table.server_now s) r

  pub added : (session.add r s).0 ≡ ok tt
  added = (table.add_new r s fits alone).0

  added_rows :
      (k : String)
      → table.lookup after_add k
        ≡ (if str_eq (model.identity r) k then some new_row else table.lookup s k)
  added_rows = (table.add_new r s fits alone).1

  pub added_row : table.lookup after_add (model.identity r) ≡ some new_row
  added_row = added_rows (model.identity r) ∙ rw (str_eq-same (model.identity r)) refl

  pub added_others :
      (k : String) → k ≢ model.identity r → table.lookup after_add k ≡ table.lookup s k
  added_others k n = added_rows k ∙ rw (str_eq-different (model.identity r) k n) refl

  module _ (key : String) (same : key ≡ model.identity r) (values : Row → Row)
      (same_identity : (x : Row) → model.identity (values x) ≡ model.identity x)
      (same_clashes : (x other : Row) → model.clashes (values x) other ≡ model.clashes x other)
      (fits_values : model.fits (values new_row) ≡ true) where
    abbrev here : Row → Bool
    here x = str_eq (model.identity x) key

    abbrev pub after_update : S
    after_update = (session.update here values after_add).1

    met : (k : String) (x : Row) → table.lookup after_add k ≡ some x → here x ≡ true → x ≡ new_row
    met k x found hit =
        let at =
          sym (table.keyed k x after_add found) ∙ (eq_iff (model.identity x) key).0 hit ∙ same in
        some-injective x new_row (sym found ∙ ap (table.lookup after_add) at ∙ added_row)

    changes :
        ((session.update here values after_add).0 ≡ ok tt)
        × ((k : String)
            → table.lookup after_update k
              ≡ Option.map
                  (λ x. if here x then model.updated (table.server_now after_add) (values x) else x)
                  (table.lookup after_add k))
    changes = table.update_rows here values after_add same_identity same_clashes (λ k x found hit.
        subst (λ y. model.fits (values y) ≡ true) (sym (met k x found hit)) fits_values)

    pub updated : (session.update here values after_add).0 ≡ ok tt
    updated = changes.0

    new_row-here : here new_row ≡ true
    new_row-here =
        (eq_iff (model.identity new_row) key).1
          (table.keyed (model.identity r) new_row after_add added_row ∙ sym same)

    pub updated_row :
        table.lookup after_update (model.identity r)
        ≡ some (model.updated (table.server_now after_add) (values new_row))
    updated_row = changes.1 (model.identity r) ∙ rw (added_row, new_row-here) refl

    pub updated_others :
        (k : String) → k ≢ model.identity r → table.lookup after_update k ≡ table.lookup s k
    updated_others k n =
        changes.1 k
        ∙ rw (added_others k n) (elim (Option-cases (table.lookup s k)) [
          | inl e ↦ rw e refl
          | inr (x, e) ↦
              let elsewhere : str_eq (model.identity x) key ≡ false =
                str_eq-different (model.identity x) key
                  (λ p. n (sym (table.keyed k x s e) ∙ sym p ∙ same)) in
              rw (e, elsewhere) refl
        ])
