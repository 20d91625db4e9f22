-- ===== src/Domain/Drift/Severity.antt =====
-- The severity of a report.
use multi_cloud_ai_orchestra.Base.{
  ℕ, ltb, ◌≤◌, ◌≡◌, refl, true, false, List, [], ◌∷◌, arith, any, length, All, inl, inr, Bool-cases,
  subst, sym, ◌∙◌,
}
use multi_cloud_ai_orchestra.Domain.Drift.{
  DriftSeverity, low, medium, high, critical, DriftItem, DriftReport, has_severity, has_drift,
  greatest, max_severity,
}

abbrev pub rank : DriftSeverity → ℕ
rank low = 0
rank medium = 1
rank high = 2
rank critical = 3

-- No item is more severe than `bound`.
abbrev pub AtMost : DriftSeverity → List DriftItem → Type 0
AtMost bound items = All (λ item. rank item.severity ≤ rank bound) items

-- By cases on what `any` answers for each severity, from the most severe on.
AtMost-absent :
    (items : List DriftItem)
    → (any (has_severity critical) items ≡ false → AtMost high items)
      × (any (has_severity critical) items ≡ false
          → any (has_severity high) items ≡ false
          → AtMost medium items)
      × (any (has_severity critical) items ≡ false
          → any (has_severity high) items ≡ false
          → any (has_severity medium) items ≡ false
          → AtMost low items)
AtMost-absent [] = (λ _. tt, λ _ _. tt, λ _ _ _. tt)
AtMost-absent (item ∷ items) = ground (arith, AtMost-absent items)

AtMost-critical : (items : List DriftItem) → AtMost critical items
AtMost-critical [] = tt
AtMost-critical (item ∷ items) = (ground arith, AtMost-critical items)

present-low :
    (item : DriftItem) (items : List DriftItem)
    → any (has_severity critical) (item ∷ items) ≡ false
    → any (has_severity high) (item ∷ items) ≡ false
    → any (has_severity medium) (item ∷ items) ≡ false
    → any (has_severity low) (item ∷ items) ≡ true
present-low item items c h m = ground arith

-- `items` has `bound` as its greatest severity.
abbrev pub IsGreatest : DriftSeverity → List DriftItem → Type 0
IsGreatest bound items = AtMost bound items × (any (has_severity bound) items ≡ true)

greatest-IsGreatest :
    (item : DriftItem) (items : List DriftItem)
    → IsGreatest (greatest (item ∷ items)) (item ∷ items)
unfolding greatest
greatest-IsGreatest item items =
    let all = item ∷ items in
    let by : (m : DriftSeverity)
        → greatest all ≡ m
        → IsGreatest m all
        → IsGreatest (greatest all) all =
      λ m e h. subst (λ k. IsGreatest k all) (sym e) h in
    elim (Bool-cases (any (has_severity critical) all)) [
      | inl c ↦ by critical (rw c) (AtMost-critical all, c)
      | inr c ↦ elim (Bool-cases (any (has_severity high) all)) [
        | inl h ↦ by high (rw (c, h)) ((AtMost-absent all).0 c, h)
        | inr h ↦ elim (Bool-cases (any (has_severity medium) all)) [
          | inl m ↦ by medium (rw (c, h, m)) ((AtMost-absent all).1 c h, m)
          | inr m ↦
              let l = present-low item items c h m in
              by low (rw (c, h, m, l)) ((AtMost-absent all).2 c h m, l)
        ]
      ]
    ]

greatest-cases :
    (items : List DriftItem)
    → AtMost (greatest items) items
      × (any (has_severity (greatest items)) items ≡ ltb 0 (length items))
greatest-cases [] = (tt, refl)
greatest-cases (item ∷ items) =
    let (bounds, present) = greatest-IsGreatest item items in (bounds, present ∙ ground arith)

-- The `max_severity` of a report bounds the severity of every item, and some item has it exactly
-- when the report has drift; the report without its items is LOW.
pub max_severity-IsGreatest :
    (r : DriftReport)
    → AtMost (max_severity r) r.items
      × (any (has_severity (max_severity r)) r.items ≡ has_drift r)
      × (max_severity (record r { items = [] }) ≡ low)
unfolding max_severity has_drift greatest
max_severity-IsGreatest r = ((greatest-cases r.items).0, (greatest-cases r.items).1, refl)
