-- ===== src/Infrastructure/InMemory/Listing.antt =====
-- Listings of the in-memory repositories.
use mathlib.Core.List.{Perm}
use native.Mathlib.Nat.{zero-add, add-zero, suc-add}
use multi_cloud_ai_orchestra.Base.{
  ℕ, zero, suc, ◌+◌, ◌≡◌, refl, subst, sym, ap, ◌∙◌, List, [], ◌∷◌, ◌++◌, select, take, drop,
  length, length-select,
}
use multi_cloud_ai_orchestra.Base.Dict.{Dict, values}
use multi_cloud_ai_orchestra.Base.Sort.{
  sorted_reverse, descending, IsSorted, sort-perm, sort-IsSorted, descending-IsTotal, length-sort,
}
use multi_cloud_ai_orchestra.Domain.Status.{DeploymentStatus, is_status}
use multi_cloud_ai_orchestra.Domain.Deployment.{Deployment}
use multi_cloud_ai_orchestra.Infrastructure.InMemory.{
  deployments_by_status, count_by_status, page, deployment_created_at,
}

-- Consecutive pages join to a longer page.
take-append-drop :
    {A : Type 0} (n m : ℕ) (xs : List A) → take n xs ++ take m (drop n xs) ≡ take (n + m) xs
take-append-drop zero m xs = rw zero-add
take-append-drop (suc n) zero [] = rw add-zero
take-append-drop (suc n) (suc m) [] = rw suc-add
take-append-drop (suc n) m (x ∷ xs) = rw suc-add (ap (λ l. x ∷ l) (take-append-drop n m xs))

drop-drop : {A : Type 0} (n m : ℕ) (xs : List A) → drop m (drop n xs) ≡ drop (n + m) xs
drop-drop zero m xs = rw zero-add
drop-drop (suc n) zero [] = rw add-zero
drop-drop (suc n) (suc m) [] = rw suc-add
drop-drop (suc n) m (x ∷ xs) = rw suc-add (drop-drop n m xs)

take-length : {A : Type 0} (xs : List A) → take (length xs) xs ≡ xs
take-length [] = refl
take-length (x ∷ xs) = ap (λ l. x ∷ l) (take-length xs)

page-append :
    {A : Type 0} (n m k : ℕ) (xs : List A) → page n k xs ++ page m (k + n) xs ≡ page (n + m) k xs
page-append n m k xs =
    ap (λ l. take n (drop k xs) ++ take m l) (sym (drop-drop k n xs))
    ∙ take-append-drop n m (drop k xs)

module _ (status : DeploymentStatus) (store : Dict Deployment) where
  abbrev pub found : List Deployment
  found = select (λ d. is_status d.status status) (values store)

  whole :
      deployments_by_status status (count_by_status status store) 0 store
      ≡ sorted_reverse deployment_created_at found
  unfolding deployments_by_status count_by_status
  whole =
      ap (λ n. take n (sorted_reverse deployment_created_at found))
        (sym (length-select (λ d. is_status d.status status) (values store))
          ∙ sym (length-sort (descending deployment_created_at) found))
      ∙ take-length (sorted_reverse deployment_created_at found)

  -- `count_by_status` is the size of the whole listing: with it as the limit, `list_by_status`
  -- returns the deployments of the store in that status, each once, the newest first; and any two
  -- consecutive pages, of sizes `n` and `m`, are the page of size `n + m`.
  pub deployments_by_status-pages :
      Perm (deployments_by_status status (count_by_status status store) 0 store) found
      × IsSorted
          (descending deployment_created_at)
          (deployments_by_status status (count_by_status status store) 0 store)
      × ((n m k : ℕ)
          → deployments_by_status status n k store ++ deployments_by_status status m (k + n) store
            ≡ deployments_by_status status (n + m) k store)
  unfolding deployments_by_status
  deployments_by_status-pages = (
    subst (λ l. Perm l found) (sym whole) (sort-perm (descending deployment_created_at) found),
    subst (IsSorted (descending deployment_created_at)) (sym whole)
        (sort-IsSorted (descending-IsTotal deployment_created_at) found),
    λ n m k. page-append n m k (sorted_reverse deployment_created_at found),
  )
