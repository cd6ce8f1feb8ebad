-- ===== src/Attach/Tests.antt =====
-- Two databases that ATTACH opens by path.
use duckdb_oracle.Base.{has, ◌⊎◌, ◌↔◌, true, false, ◌≡◌, refl, none, [], ◌∷◌, ok, All, lit, pos}
use duckdb_oracle.Samples.{samples, ascii, number_of}
use duckdb_oracle.ConnectionString.{Credentials, parse_connection_string}
use duckdb_oracle.ConnectionString.Grammar.{Spells}
use duckdb_oracle.Catalog.Registry.{new_registry}
use duckdb_oracle.Functions.Target.{resolve_target}
use duckdb_oracle.Attach.Aliases.{attach_named}
use duckdb_oracle.Attach.Aliases.First.{IsAliased, attach_named-first_alias}
use duckdb_oracle.Attach.{AttachInfo, SecretManager, connection_string_of, attach_all}
use duckdb_oracle.Attach.Shared.{ConnectsTo, attach_all-ConnectsTo}

abbrev no_secrets : SecretManager samples
no_secrets = record { by_name = λ name. none; by_type = none }

abbrev sales : AttachInfo samples
sales = record {
  path = lit "scott/tiger@sales";
  options = (lit "array_size", number_of (pos 512)) ∷ [];
}

abbrev stock : AttachInfo samples
stock = record { path = lit "scott/tiger@stock"; options = [] }

sales_path : connection_string_of samples ascii no_secrets sales ≡ ok (lit "scott/tiger@sales")
unfolding connection_string_of lit
sales_path = refl

attach_all-ConnectsTo_example :
    All
      (ConnectsTo (lit "scott/tiger@sales"))
      (attach_all samples ascii no_secrets none (sales ∷ stock ∷ []))
attach_all-ConnectsTo_example =
    attach_all-ConnectsTo samples ascii no_secrets sales (stock ∷ []) (lit "scott/tiger@sales")
      sales_path

abbrev tiger : Credentials
tiger = record { user = lit "scott"; password = lit "tiger"; db = lit "sales" }

-- The second database has an alias that nothing knows.
attach_named-first_alias_example :
    let e =
      attach_named samples ascii no_secrets
        ((lit "sales", sales) ∷ (lit "stock", stock) ∷ [])
        (record { held = none; registry = new_registry }) in
    (parse_connection_string
        (resolve_target ascii
          (λ id. lit "scott/tiger@sales")
          (λ id. true)
          (lit "stock")
          e.registry).1
      ≡ ok tiger)
    ↔ Spells (lit "stock") tiger
      ⊎ ((has b'@' (lit "stock") ≡ false)
          × IsAliased ascii (λ id. true) (lit "sales") (lit "stock")
          × Spells (lit "scott/tiger@sales") tiger)
attach_named-first_alias_example =
    attach_named-first_alias samples ascii no_secrets (λ id. true) (lit "sales") sales
      ((lit "stock", stock) ∷ []) (lit "scott/tiger@sales") (lit "stock") tiger sales_path
