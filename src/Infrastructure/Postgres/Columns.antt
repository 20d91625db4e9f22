-- ===== src/Infrastructure/Postgres/Columns.antt =====
-- The values of columns as the repositories read them: NULL, times, and the dumps of pydantic models,
-- which are a parameter.
use multi_cloud_ai_orchestra.Base.{
  ◌≡◌, refl, ℕ, zero, suc, String, str_eq, Bool, true, false, not, List, [], ◌∷◌, All, Option, none,
  some, Json, Items, Fields,
}
use multi_cloud_ai_orchestra.Base.Dict.{Dict}

-- `x or ""` and `x or {}` on a column that may be NULL
abbrev pub or_empty_text : Option String → String
or_empty_text none = ""
or_empty_text (some text) = text

abbrev pub or_empty_dict : Option (Dict Json) → Dict Json
or_empty_dict none = []
or_empty_dict (some entries) = entries

-- A DateTime column to order by; a row of the table has the server's time.
abbrev pub time : Option ℕ → ℕ
time none = 0
time (some t) = t

-- `if data:` on a value
abbrev pub truthy : Json → Bool
truthy Json.null = false
truthy (Json.flag b) = b
truthy (Json.num zero) = false
truthy (Json.num (suc n)) = true
truthy (Json.str text) = not (str_eq text "")
truthy (Json.arr Items.no_items) = false
truthy (Json.arr (Items.item j items)) = true
truthy (Json.obj Fields.no_fields) = false
truthy (Json.obj (Fields.field k j rest)) = true

abbrev pub both : {A : Type 0} → Option A → Option (List A) → Option (List A)
both (some a) (some rest) = some (a ∷ rest)
both (some a) none = none
both none rest = none

-- `model_dump` and `model_validate` of a pydantic model, on the values that a JSON column holds.
pub record Dumps (A : Type 0) : Type 0 where
  pub model_dump : A → Json
  pub model_validate : Json → Option A

-- What pydantic documents of a dump: it is a dictionary of the fields, and is validated to what was
-- dumped.
abbrev pub IsDumped : {A : Type 0} → Dumps A → A → Type 0
IsDumped dumps a =
    (dumps.model_validate (dumps.model_dump a) ≡ some a) × (truthy (dumps.model_dump a) ≡ true)

-- `[r.model_dump() for r in rs]`
abbrev pub dump_all : {A : Type 0} → Dumps A → List A → List Json
dump_all dumps [] = []
dump_all dumps (a ∷ rest) = dumps.model_dump a ∷ dump_all dumps rest

-- `[M.model_validate(r) for r in data]` under `if data:`
abbrev pub validate_all : {A : Type 0} → Dumps A → List Json → Option (List A)
validate_all dumps [] = some []
validate_all dumps (json ∷ rest) = both (dumps.model_validate json) (validate_all dumps rest)

abbrev pub validate_column : {A : Type 0} → Dumps A → Option (List Json) → Option (List A)
validate_column dumps none = some []
validate_column dumps (some entries) = validate_all dumps entries

pub validate_all-dump_all :
    {A : Type 0} (dumps : Dumps A) (rows : List A)
    → All (IsDumped dumps) rows
    → validate_all dumps (dump_all dumps rows) ≡ some rows
validate_all-dump_all dumps [] h = refl
validate_all-dump_all dumps (a ∷ rest) h = rw (h.0.0, validate_all-dump_all dumps rest h.1) refl
