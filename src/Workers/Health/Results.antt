-- ===== src/Workers/Health/Results.antt =====
-- What a health check reports, with a checker that does not raise.
use multi_cloud_ai_orchestra.Base.{
  ◌≡◌, refl, ap, ◌∙◌, String, str_eq, eq_iff, Bool, true, false, ◌&&◌, List, [], ◌∷◌, none, some,
  ok, Json, all, mem_text, if◌then◌else◌, inl, inr, Bool-cases, arith,
}
use multi_cloud_ai_orchestra.Base.Dict.{get, put, get-put}
use multi_cloud_ai_orchestra.Domain.Ports.Services.{HealthChecker}
use multi_cloud_ai_orchestra.Workers.Health.{HealthReport, check_all, check_result}

module _ {E S : Type 0} (checker : HealthChecker E S) (answer : String → String → Bool × String)
    (answers : (provider id : String) (s : S)
      → checker.check_resource provider id s ≡ (ok (answer provider id), s))
    (provider : String) where
  abbrev healthy : String → Bool
  healthy id = (answer provider id).0

  abbrev said : String → Json
  said id = check_result (answer provider id).0 (answer provider id).1

  abbrev counted : String → HealthReport → HealthReport
  counted id report = record {
    all_healthy = if healthy id then report.all_healthy else false;
    results = put id (said id) report.results;
  }

  both_healthy :
      (one others before : Bool)
      → (others && (if one then before else false)) ≡ ((one && others) && before)
  both_healthy one others before = ground arith

  -- The report that the loop makes.
  abbrev reported : List String → HealthReport → HealthReport
  reported [] report = report
  reported (id ∷ ids) report = reported ids (counted id report)

  runs :
      (ids : List String) (report : HealthReport) (s : S)
      → check_all checker provider ids report s ≡ (ok (reported ids report), s)
  unfolding check_all
  runs [] report s = refl
  runs (id ∷ ids) report s = rw (answers provider id s) (runs ids _ s)

  reported-healthy :
      (ids : List String) (report : HealthReport)
      → (reported ids report).all_healthy ≡ (all healthy ids && report.all_healthy)
  reported-healthy [] report = refl
  reported-healthy (id ∷ ids) report =
      reported-healthy ids (counted id report)
      ∙ both_healthy (healthy id) (all healthy ids) report.all_healthy

  reported-results :
      (id : String) (ids : List String) (report : HealthReport)
      → get id (reported ids report).results ≡ (
          if mem_text id ids
          then some (check_result (answer provider id).0 (answer provider id).1)
          else get id report.results)
  reported-results id [] report = refl
  reported-results id (j ∷ ids) report =
      reported-results id ids (counted j report) ∙ elim (Bool-cases (mem_text id ids)) [
        | inl m ↦ rw m (elim (Bool-cases (str_eq j id)) [ inl t ↦ rw t refl | inr f ↦ rw f refl ])
        | inr n ↦ rw n (
            get-put j id (said j) report.results ∙ elim (Bool-cases (str_eq j id)) [
              | inl t ↦ rw t (ap (λ i. some (said i)) ((eq_iff j id).0 t))
              | inr f ↦ rw f refl
            ])
      ]

  both_true : (b : Bool) → (b && true) ≡ b
  both_true b = ground arith

  -- With a checker that answers without an exception, the check of a list of resources returns: it
  -- reports them healthy exactly when each of them is, and has the answer for each of them, and
  -- nothing for another one.
  pub check_all-reports :
      (ids : List String) (s : S)
      → let empty : HealthReport = record { all_healthy = true; results = [] } in
        (report : HealthReport) × (check_all checker provider ids empty s ≡ (ok report, s))
        × (report.all_healthy ≡ all healthy ids)
        × ((id : String)
            → get id report.results ≡ (
                if mem_text id ids
                then some (check_result (answer provider id).0 (answer provider id).1)
                else none))
  unfolding get
  check_all-reports ids s =
      let empty : HealthReport = record { all_healthy = true; results = [] } in
      (
        reported ids empty,
        runs ids empty s,
        reported-healthy ids empty ∙ both_true (all healthy ids),
        λ id. reported-results id ids empty,
      )
