-- ===== src/Infrastructure/Database/Atomic.antt =====
-- What a session of DatabaseManager stores.
use multi_cloud_ai_orchestra.Base.{
  ◌≡◌, refl, ◌∙◌, Option, some, Method, Result, ok, raised, pure, ◌>>◌, ◌⊎◌, inl, inr,
}
use multi_cloud_ai_orchestra.Infrastructure.Database.{
  Sqlalchemy, DatabaseManager, DatabaseError, failed, finish, in_session, session,
}

-- What SQLAlchemy documents: `stored` is what other sessions read, and `working` what this session
-- reads. A commit that fails stores nothing.
pub record IsTransactional {Engine Factory Session E : Type 0}
    (calls : Sqlalchemy Engine Factory Session E) {D : Type 0} (stored working : Session → D)
    : Type 0 where
  pub rolled_back : (s : Session) → stored (calls.rollback s) ≡ stored s
  pub closed : (s : Session) → stored (calls.close_session s) ≡ stored s
  pub committed : (s : Session) → (calls.commit s).0 ≡ ok tt → stored (calls.commit s).1 ≡ working s
  pub refused :
      (s : Session) (e : E) → (calls.commit s).0 ≡ raised e → stored (calls.commit s).1 ≡ stored s

Result-cases : {E A : Type 0} (r : Result E A) → ((a : A) × (r ≡ ok a)) ⊎ ((e : E) × (r ≡ raised e))
Result-cases (ok a) = inl (a, refl)
Result-cases (raised e) = inr (e, refl)

module _ {Engine Factory Session E D A : Type 0} (calls : Sqlalchemy Engine Factory Session E)
    (stored working : Session → D) (laws : IsTransactional calls stored working) where
  -- All that the body did is stored, or an exception is raised and nothing is.
  abbrev pub AllOrNothing : Session → Session → Result (DatabaseError E) A × Option Session → Type 0
  AllOrNothing before after (r, left) =
      (s : Session) × (left ≡ some s)
      × (((a : A) × (r ≡ ok a) × (stored s ≡ working after))
          ⊎ ((e : E) × (r ≡ raised (failed e)) × (stored s ≡ stored before)))

  aborted :
      (e : E) (before after s : Session)
      → stored s ≡ stored before
      → AllOrNothing before after (finish calls (raised e, s))
  unfolding finish
  aborted e before after s h =
      (_, refl, inr (e, refl, laws.closed (calls.rollback s) ∙ laws.rolled_back s ∙ h))

  concluded :
      (a : A) (before after : Session)
      → stored after ≡ stored before
      → AllOrNothing before after (finish calls ((calls.commit >> pure a) after))
  unfolding finish
  concluded a before after h =
      let s = (calls.commit after).1 in
      elim (Result-cases (calls.commit after).0) [
        | inl (done, c) ↦ rw c (_, refl, inl (a, refl, laws.closed s ∙ laws.committed after c))
        | inr (e, c) ↦ rw c (aborted e before after s (laws.refused after e c ∙ h))
      ]

  -- In an initialised manager, a session whose body does not commit by itself either returns with
  -- all that the body did stored, or raises with nothing of it stored.
  pub session-AllOrNothing :
      (m : DatabaseManager Engine Factory) (factory : Factory) (body : Method E Session A)
      → m.session_factory ≡ some factory
      → ((s : Session) → stored (body s).1 ≡ stored s)
      → let before = calls.open_session factory in
        AllOrNothing before (body before).1 (session calls m body)
  unfolding session in_session
  session-AllOrNothing m factory body ready uncommitted =
      let before = calls.open_session factory in
      rw ready (elim (Result-cases (body before).0) [
        | inr (e, h) ↦ rw h (aborted e before (body before).1 (body before).1 (uncommitted before))
        | inl (a, h) ↦ rw h (concluded a before (body before).1 (uncommitted before))
      ])
