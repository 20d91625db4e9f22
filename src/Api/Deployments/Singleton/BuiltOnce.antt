-- ===== src/Api/Deployments/Singleton/BuiltOnce.antt =====
-- Requests for the deployment service that interleave.
use multi_cloud_ai_orchestra.Base.{
  ◌≡◌, refl, ap, sym, ◌∙◌, subst, ℕ, zero, suc, ◌+◌, ◌==◌, ◌≤◌, List, [], ◌∷◌, Bool, true, false,
  Option, none, some, inl, inr, all, count_if, arith,
}
use multi_cloud_ai_orchestra.Api.Container.{Process, lock_service, cache_service}
use multi_cloud_ai_orchestra.Api.Container.Quiet.{
  IsQuiet, services_built, lock_service-IsQuiet, cache_service-IsQuiet,
}
use multi_cloud_ai_orchestra.Api.Deployments.Singleton.{
  build_deployment_service, Stage, asked, waiting, holding, building, leaving, fetching, returned,
  assertion_failed, first_check, second_check, fetched, enter, advance, resume, Turn, goes_on,
  arrives, reads_lock, reads_cache, take_turn, run,
}
use multi_cloud_ai_orchestra.Api.Deployments.Singleton.Steps.{
  inside, agrees, bit, count, Sets, keeps_agreeing, advance-Keeps,
}

-- Requests, and as many more that have the lock as `others` says.
record IsConsistent (others : ℕ) (requests : List Stage) (p : Process) : Type 0 where
  pub one_inside : others + count_if inside requests ≡ bit p.init_lock
  pub agreed : all (agrees p.service) requests ≡ true
  pub built : services_built p ≡ count p.service

fewer : (a b : ℕ) (p q : Process) → b ≤ a → Sets a p q → Sets b p q
fewer a b p q h (inl same) = inl same
fewer a b p q h (inr (none_inside, was_none)) = inr (omega arith, was_none)

all_agree :
    (requests : List Stage) (p q : Process)
    → Sets (count_if inside requests) p q
    → all (agrees p.service) requests ≡ true
    → all (agrees q.service) requests ≡ true
all_agree [] p q h k = refl
all_agree (s ∷ requests) p q h k =
    let n = count_if inside requests in
    ground (
      arith,
      keeps_agreeing 0 s p q (fewer (bit (inside s) + n) (0 + bit (inside s)) p q (omega arith) h),
      all_agree requests p q (fewer (bit (inside s) + n) n p q (omega arith) h),
    )

resume-IsConsistent :
    (i others : ℕ) (requests : List Stage) (p : Process)
    → IsConsistent others requests p
    → let (rest, q) = resume i requests p in IsConsistent others rest q × Sets others p q
unfolding resume
resume-IsConsistent i others [] p h = (h, inl refl)
resume-IsConsistent zero others (s ∷ requests) p h =
    let n = count_if inside requests in
    let (s', q) = advance s p in
    let kept =
      advance-Keeps (others + n) s p (omega (arith, h.one_inside)) (ground (arith, h.agreed))
        h.built in
    let still =
      all_agree requests p q (fewer (others + n) n p q (omega arith) kept.sets)
        (ground (arith, h.agreed)) in
    (
      record {
        one_inside = omega (arith, kept.one_inside);
        agreed = ground (arith, kept.agreed, still);
        built = kept.built;
      },
      fewer (others + n) others p q (omega arith) kept.sets,
    )
resume-IsConsistent (suc i) others (s ∷ requests) p h =
    let inner = others + bit (inside s) in
    let (rest, q) = resume i requests p in
    let (still, sets) = resume-IsConsistent i inner requests p (record {
      one_inside = omega (arith, h.one_inside);
      agreed = ground (arith, h.agreed);
      built = h.built;
    }) in
    let mine = keeps_agreeing others s p q sets (ground (arith, h.agreed)) in
    (
      record {
        one_inside = omega (arith, still.one_inside);
        agreed = ground (arith, mine, still.agreed);
        built = still.built;
      },
      fewer inner others p q (omega arith) sets,
    )

quiet-IsConsistent :
    (requests : List Stage) (p q : Process)
    → IsQuiet p q
    → IsConsistent 0 requests p
    → IsConsistent 0 requests q
quiet-IsConsistent requests p q quiet h = record {
  one_inside = h.one_inside ∙ ap bit (sym quiet.same_lock);
  agreed = subst (λ o. all (agrees o) requests ≡ true) (sym quiet.same_service) h.agreed;
  built = quiet.same_count ∙ h.built ∙ ap count (sym quiet.same_service);
}

take_turn-IsConsistent :
    (t : Turn) (requests : List Stage) (p : Process)
    → IsConsistent 0 requests p
    → let (rest, q) = take_turn t requests p in IsConsistent 0 rest q
unfolding take_turn
take_turn-IsConsistent (goes_on i) requests p h = (resume-IsConsistent i 0 requests p h).0
take_turn-IsConsistent arrives requests p h = record {
  one_inside = omega (arith, h.one_inside);
  agreed = h.agreed;
  built = h.built;
}
take_turn-IsConsistent reads_lock requests p h =
    quiet-IsConsistent requests p (lock_service p).1 (lock_service-IsQuiet p) h
take_turn-IsConsistent reads_cache requests p h =
    quiet-IsConsistent requests p (cache_service p).1 (cache_service-IsQuiet p) h

run-IsConsistent :
    (turns : List Turn) (requests : List Stage) (p : Process)
    → IsConsistent 0 requests p
    → let (rest, q) = run turns requests p in IsConsistent 0 rest q
unfolding run
run-IsConsistent [] requests p h = h
run-IsConsistent (t ∷ turns) requests p h =
    let (rest, q) = take_turn t requests p in
    run-IsConsistent turns rest q (take_turn-IsConsistent t requests p h)

-- What a request got is the service in `_state`, and its assertion holds.
abbrev pub is_answered : Option ℕ → Stage → Bool
is_answered o assertion_failed = false
is_answered none (returned r) = false
is_answered (some service) (returned r) = service == r
is_answered o _ = true

answered : (o : Option ℕ) (s : Stage) → agrees o s ≡ true → is_answered o s ≡ true
answered o asked h = refl
answered o waiting h = refl
answered o holding h = refl
answered o building h = refl
answered o leaving h = refl
answered o fetching h = refl
answered none (returned r) h = h
answered (some service) (returned r) h = h
answered o assertion_failed h = h

all_answered :
    (o : Option ℕ) (requests : List Stage)
    → all (agrees o) requests ≡ true
    → all (is_answered o) requests ≡ true
all_answered o [] h = refl
all_answered o (s ∷ requests) h =
    ground (arith, answered o s (ground arith), all_answered o requests (ground arith))

count-bound : (o : Option ℕ) → count o ≤ 1
count-bound none = omega arith
count-bound (some service) = omega arith

abbrev pub alone : List Turn
alone = goes_on 0 ∷ goes_on 0 ∷ goes_on 0 ∷ goes_on 0 ∷ goes_on 0 ∷ goes_on 0 ∷ []

-- While a process has no deployment service and nobody has the lock, requests may arrive and run
-- _get_deployment_service in any interleaving, along with reads of the lock and cache services: at
-- most one deployment service is built, at most one request has the lock, no assertion fails, and
-- all requests that have returned got the service that `_state` holds. A request that runs alone
-- returns after six steps.
pub run-builds_once :
    (turns : List Turn) (p : Process)
    → p.service ≡ none
    → p.init_lock ≡ false
    → services_built p ≡ 0
    → let (requests, q) = run turns [] p in
      (services_built q ≤ 1)
      × (count_if inside requests ≤ 1)
      × (all (is_answered q.service) requests ≡ true)
      × ((run alone (asked ∷ []) p).0
          ≡ returned (build_deployment_service (record p { init_lock = true })).0 ∷ [])
unfolding run take_turn resume advance first_check second_check fetched enter
run-builds_once turns p no_service free none_built =
    let (requests, q) = run turns [] p in
    let h = run-IsConsistent turns [] p (record {
      one_inside = rw free refl;
      agreed = refl;
      built = none_built ∙ ap count (sym no_service);
    }) in
    (
      omega (arith, h.built, count-bound q.service),
      ground (arith, h.one_inside),
      all_answered q.service requests h.agreed,
      rw (no_service, free) refl,
    )
