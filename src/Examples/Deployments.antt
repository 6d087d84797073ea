-- ===== src/Examples/Deployments.antt =====
-- The theorems on the store of objects and on preflights, at a store with one version and at a
-- server with every table.
use flagship_lab.ObjectStore.WriteOnce.{put_immutable-keeps, get_version-put_immutable}
use flagship_lab.Result.{ok}
use flagship_lab.Examples.{sample_env}
use flagship_lab.Preflight.Ready.{IsReady, run_preflight-IsReady}
use flagship_lab.Preflight.{
  run_preflight, TableRow, Arguments, Report, Catalog, expected_revision, tenant_tables,
}
use flagship_lab.ObjectStore.{get_version, put_immutable, version_at, create_version}
use flagship_lab.Objects.{Version, StoredObject}
use flagship_lab.Prelude.{
  String, Option, some, ℕ, List, true, [], false, ◌≡◌, suc, ◌∷◌, refl, zero, map,
}

abbrev first_put : StoredObject × List Version
first_put = create_version sample_env "acme/a.zip" "one" "2027-01-01" []

abbrev second_put : StoredObject × List Version
second_put = create_version sample_env "acme/a.zip" "two" "2027-01-01" first_put.1

put_twice : put_immutable sample_env "acme/a.zip" "two" 30 "2027-01-01" first_put.1 ≡ ok second_put
unfolding put_immutable
put_twice = refl

abbrev one_version : Version
one_version = record { path = "acme/a.zip.hone"; contents = "one"; metadata = first_put.0 }

first_seen : version_at "acme/a.zip.hone" first_put.1 ≡ some one_version
unfolding version_at
first_seen = refl

put_immutable-keeps_example : version_at "acme/a.zip.hone" second_put.1 ≡ some one_version
put_immutable-keeps_example =
    put_immutable-keeps sample_env "acme/a.zip" "two" 30 "2027-01-01" first_put.1 second_put
      put_twice "acme/a.zip.hone" one_version first_seen

get_version-put_immutable_example :
    (c : String) × (get_version sample_env "acme/a.zip" "htwo" second_put.1 ≡ ok c)
    × (sample_env.sha256_text c ≡ "htwo")
get_version-put_immutable_example =
    get_version-put_immutable sample_env "acme/a.zip" "two" 30 "2027-01-01" first_put.1 second_put
      put_twice (refl, tt)

abbrev protected_table : String → TableRow
protected_table name = record {
  relname = name;
  owner = "migrator";
  relrowsecurity = true;
  relforcerowsecurity = true;
}

abbrev zeros : ℕ → List ℕ
zeros zero = []
zeros (suc n) = 0 ∷ zeros n

abbrev sample_decode : String → Option (List ℕ)
sample_decode s = some (zeros 32)

abbrev sample_arguments : Arguments
sample_arguments = record {
  database_url = "postgresql+psycopg://db/flagship";
  issuer = "https://id.example";
  audience = "flagship";
  jwks_url = "https://id.example/keys";
  backup_key_base64 = "AAAA";
  allow_dev_tokens = false;
}

abbrev sample_catalog : Catalog
sample_catalog = record {
  roles = record { name = "app"; rolsuper = false; rolbypassrls = false } ∷ [];
  revisions = expected_revision ∷ [];
  relations = map protected_table tenant_tables;
}

abbrev sample_report : Report
sample_report = record { user = "app"; forced_rls_tables = 15; schema_revision = expected_revision }

sample_passes : run_preflight sample_decode sample_arguments sample_catalog ≡ ok sample_report
unfolding run_preflight flagship_lab.Prelude.Text.starts_with flagship_lab.Preflight.backup_key
    flagship_lab.Preflight.check_database flagship_lab.Preflight.check_tables
    flagship_lab.Prelude.select flagship_lab.Preflight.table_of flagship_lab.Prelude.last?
    flagship_lab.Prelude.any
sample_passes = refl

run_preflight-IsReady_example : IsReady sample_decode sample_arguments sample_catalog sample_report
run_preflight-IsReady_example =
    run_preflight-IsReady sample_decode sample_arguments sample_catalog sample_report sample_passes
