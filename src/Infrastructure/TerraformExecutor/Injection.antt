-- ===== src/Infrastructure/TerraformExecutor/Injection.antt =====
-- Texts of properties in a configuration.
use Prim.Native.String
use text.Mathlib.TextLemmas.{append_assoc, append-nil}
use multi_cloud_ai_orchestra.Base.{◌≡◌, refl, ap, String, [], ◌∷◌, ◌++◌, Json, fstring}
use multi_cloud_ai_orchestra.Base.Dict.{Dict}
use multi_cloud_ai_orchestra.Domain.Cloud.{ResourceSpec}
use multi_cloud_ai_orchestra.Infrastructure.TerraformExecutor.{
  property_line, property_lines, hcl_of, header,
}

-- A value that closes its quotation and goes on with a line for another property.
abbrev pub smuggled : String → String → String → String
unfolding fstring
smuggled value key other = fstring (value ∷ "\"\n  " ∷ key ∷ " = \"" ∷ other ∷ [])

new_line : (rest : String) → String.◌++◌ "\"\n  " rest ≡ String.◌++◌ "\"\n" (String.◌++◌ "  " rest)
new_line rest = append_assoc "\"\n" "  " rest

two_lines :
    (dumps : Json → String) (key value key' other rest : String)
    → String.◌++◌ (property_line dumps key (Json.str (smuggled value key' other))) rest
      ≡ String.◌++◌
          (property_line dumps key (Json.str value))
          (String.◌++◌ (property_line dumps key' (Json.str other)) rest)
unfolding property_line fstring
two_lines dumps key value key' other rest = simp (append_assoc, append-nil, new_line)

lines-injected :
    (dumps : Json → String) (before after : Dict Json) (key value key' other : String)
    → property_lines dumps (before ++ (key, Json.str (smuggled value key' other)) ∷ after)
      ≡ property_lines dumps (before ++ (key, Json.str value) ∷ (key', Json.str other) ∷ after)
unfolding property_lines
lines-injected dumps [] after key value key' other =
    two_lines dumps key value key' other (property_lines dumps after)
lines-injected dumps ((k, v) ∷ before) after key value key' other =
    ap (λ rest. String.◌++◌ (property_line dumps k v) rest)
      (lines-injected dumps before after key value key' other)

-- The configuration of a resource does not tell its properties apart: a text property whose value
-- closes its quotation and goes on on a new line gives the same configuration as two properties, so
-- whoever may set the value of one property may set any other one, before the properties that
-- follow.
pub hcl_of-injected :
    (dumps : Json → String) (spec : ResourceSpec) (before after : Dict Json)
    (key value key' other : String)
    → hcl_of dumps
        (record spec { properties = before ++ (key, Json.str (smuggled value key' other)) ∷ after })
      ≡ hcl_of dumps (record spec {
        properties = before ++ (key, Json.str value) ∷ (key', Json.str other) ∷ after;
      })
unfolding hcl_of header
hcl_of-injected dumps spec before after key value key' other =
    rw (lines-injected dumps before after key value key' other) refl
