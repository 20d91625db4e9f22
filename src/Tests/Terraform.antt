-- ===== src/Tests/Terraform.antt =====
-- The theorems on the simulated Terraform executor at concrete inputs.
use multi_cloud_ai_orchestra.Base.{
  ◌≡◌, refl, String, str_eq, [], ◌∷◌, some, ok, Json, fstring, if◌then◌else◌,
}
use multi_cloud_ai_orchestra.Base.Dict.{get}
use multi_cloud_ai_orchestra.Domain.Status.{running}
use multi_cloud_ai_orchestra.Domain.Cloud.{ResourceSpec, compute, aws, provider_value}
use multi_cloud_ai_orchestra.Domain.Task.{Task}
use multi_cloud_ai_orchestra.Infrastructure.TerraformExecutor.{
  Executor, hcl_of, header, property_line, property_lines, tags_block, tag_lines, provider_configs,
  source_of, version_of, terraform_resource, resource_terraform_map,
}
use multi_cloud_ai_orchestra.Infrastructure.TerraformExecutor.Injection.{hcl_of-injected, smuggled}
use multi_cloud_ai_orchestra.Workers.Terraform.{execute}
use multi_cloud_ai_orchestra.Workers.Terraform.Simulated.{
  answer, shown, replay, outcome, id_of, execute-simulated,
}
use multi_cloud_ai_orchestra.Tests.Samples.{spec, task}

abbrev dumps : Json → String
dumps json = "0"

abbrev basename : String → String
basename path = path

abbrev join : String → String → String
join directory name = fstring (directory ∷ "/" ∷ name ∷ [])

abbrev tagged : ResourceSpec
tagged = record (spec compute "web") {
  properties = ("image", Json.str "small") ∷ ("count", Json.num 0) ∷ [];
  tags = ("team", "core") ∷ [];
}

configuration :
    hcl_of dumps tagged
    ≡ "terraform {\n  required_providers {\n    aws = {\n      source  = \"hashicorp/aws\"\n      version = \"~> 5.0\"\n    }\n  }\n}\n\nresource \"aws_instance\" \"web\" {\n  # Region: us-east-1\n  image = \"small\"\n  count = 0\n\n  tags = {\n    team = \"core\"\n  }\n}\n"
unfolding hcl_of header property_line property_lines tags_block tag_lines provider_configs source_of
    version_of terraform_resource resource_terraform_map provider_value fstring
configuration = refl

hcl_of-injected_example :
    hcl_of dumps (record (spec compute "web") {
      properties =
          ("image", Json.str (smuggled "small" "user_data" "curl evil"))
          ∷ ("count", Json.num 0)
          ∷ [];
    })
    ≡ hcl_of dumps (record (spec compute "web") {
      properties =
          ("image", Json.str "small")
          ∷ ("user_data", Json.str "curl evil")
          ∷ ("count", Json.num 0)
          ∷ [];
    })
hcl_of-injected_example =
    hcl_of-injected dumps (spec compute "web") [] (("count", Json.num 0) ∷ []) "image" "small"
      "user_data" "curl evil"

abbrev executor : Executor
executor = record { simulated = ("sim-a", Json.null) ∷ []; files = []; directories = [] }

abbrev destroying : Task
destroying = record (task "t" 1 running) { terraform_action = "destroy" }

execute-simulated_example :
    let dir = join "d" "t" in
    let (r, calls) =
      execute
        (answer dumps basename join executor)
        (shown dumps basename join executor)
        (λ json. some tagged)
        join
        destroying
        [] in
    let t = replay dumps basename join calls executor in
    (r
      ≡ ok (record {
        action = "destroy";
        resource = "web";
        provider = aws;
        state = t.simulated;
        work_dir = dir;
      }))
    × ((k : String)
        → get k t.simulated ≡ (
            if str_eq (id_of dumps basename join dir) k
            then outcome dumps basename join "destroy" dir (get k executor.simulated)
            else get k executor.simulated))
    × (get (join dir "main.tf") t.files ≡ some (hcl_of dumps tagged))
unfolding get
execute-simulated_example =
    execute-simulated dumps basename join (λ json. some tagged) join destroying tagged executor refl
      (refl, tt)
