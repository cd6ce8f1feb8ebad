-- ===== src/Attach/Aliases/First.antt =====
-- Which aliases of attached databases `oracle_execute` and `oracle_query` know.
use duckdb_oracle.Base.{
  sym, has, text_eq, ◌⊎◌, empty, arith, ◌↔◌, Bool, ℕ, ◌∙◌, ap, ◌≡◌, List, Text, Result, none, some,
  ok, throw, [], ◌∷◌, inl, inr, refl, true, false,
}
use duckdb_oracle.Duckdb.{Values, Strings}
use duckdb_oracle.ConnectionString.{Credentials, parse_connection_string}
use duckdb_oracle.ConnectionString.Grammar.{Spells}
use duckdb_oracle.Catalog.Registry.{Registry, register, new_registry, find_alias}
use duckdb_oracle.Catalog.Registry.Lookup.{if_alive}
use duckdb_oracle.Attach.{
  AttachError, OracleCatalogState, SecretManager, AttachInfo, connection_string_of,
}
use duckdb_oracle.Attach.Shared.{first-Keeps, attach-Keeps}
use duckdb_oracle.Attach.Aliases.{registry_after, attach_as, attach_named}
use duckdb_oracle.Functions.Target.{resolve_target}
use duckdb_oracle.Functions.Target.Accepted.{resolve_target-accepted}

module _ (v : Values) (str : Strings) (manager : SecretManager v) where
  registry_after-held :
      (state : OracleCatalogState) (found : Result AttachError Text) (name : Text) (r : Registry)
      → registry_after str (some state) found name r ≡ r
  unfolding registry_after
  registry_after-held state (ok c) name r = refl
  registry_after-held state (throw problem) name r = refl

  -- Once a state is held, no ATTACH changes the registry.
  attach_named-registry :
      (infos : List (Text × AttachInfo v)) (state : OracleCatalogState) (r : Registry)
      → (attach_named v str manager infos (record { held = some state; registry = r })).registry ≡ r
  unfolding attach_named attach_as
  attach_named-registry [] state r = refl
  attach_named-registry ((name, info) ∷ infos) state r =
      let ((next, after_is, same), first) = attach-Keeps v str manager state info in
      ap
        (λ held.
          (attach_named v str manager infos (record {
            held = held;
            registry =
                registry_after str (some state) (connection_string_of v str manager info) name r;
          })).registry)
        after_is
      ∙ attach_named-registry infos next _
      ∙ registry_after-held state (connection_string_of v str manager info) name r

  registry_after-new :
      (c name : Text) (r : Registry) → registry_after str none (ok c) name r ≡ register str 0 name r
  unfolding registry_after
  registry_after-new c name r = refl

  -- After the first ATTACH that finds its connection string, the registry has its alias alone.
  first-registry :
      (name : Text) (info : AttachInfo v) (infos : List (Text × AttachInfo v)) (c : Text)
      → connection_string_of v str manager info ≡ ok c
      → (attach_named v str manager
          ((name, info) ∷ infos)
          (record { held = none; registry = new_registry })).registry
        ≡ register str 0 name new_registry
  unfolding attach_named attach_as
  first-registry name info infos c e =
      let ((next, after_is, same), first) = first-Keeps v str manager info c e in
      ap
        (λ held.
          (attach_named v str manager infos (record {
            held = held;
            registry =
                registry_after str none (connection_string_of v str manager info) name new_registry;
          })).registry)
        after_is
      ∙ attach_named-registry infos next _
      ∙ ap (λ found. registry_after str none found name new_registry) e
      ∙ registry_after-new c name new_registry

module _ (str : Strings) (alive : ℕ → Bool) where
  -- State 0 has this alias and is alive.
  abbrev pub IsAliased : Text → Text → Type 0
  IsAliased name target =
      (empty name ≡ false) × (text_eq (str.lower name) (str.lower target) ≡ true) × (alive 0 ≡ true)

  alias_found :
      (name target : Text)
      → IsAliased name target
      → if_alive alive (find_alias (register str 0 name new_registry).aliases (str.lower target))
        ≡ some 0
  unfolding register
  alias_found [] target (named, same, on) = cc named
  alias_found (c ∷ name) target (named, same, on) = ground (arith, same, on)

  found_alias-IsAliased :
      (name target : Text) (id : ℕ)
      → if_alive alive (find_alias (register str 0 name new_registry).aliases (str.lower target))
        ≡ some id
      → IsAliased name target
  unfolding register
  found_alias-IsAliased [] target id e = cc e
  found_alias-IsAliased (c ∷ name) target id e = (refl, ground arith, ground arith)

-- The first of any ATTACHs finds its connection string `c`, and nothing is attached before it. What
-- `oracle_execute` and `oracle_query` resolve a target to afterwards is accepted as a connection
-- string, with some credentials, exactly when the target spells them itself, or it has no '@', is
-- the name of that first database up to case, whose state is alive, and `c` spells them. So the name
-- of every other attached database is refused.
pub attach_named-first_alias :
    (v : Values) (str : Strings) (manager : SecretManager v) (alive : ℕ → Bool) (name : Text)
    (info : AttachInfo v) (infos : List (Text × AttachInfo v)) (c target : Text)
    (credentials : Credentials)
    → connection_string_of v str manager info ≡ ok c
    → let e =
        attach_named v str manager
          ((name, info) ∷ infos)
          (record { held = none; registry = new_registry }) in
      (parse_connection_string (resolve_target str (λ id. c) alive target e.registry).1
        ≡ ok credentials)
      ↔ Spells target credentials
        ⊎ ((has b'@' target ≡ false) × IsAliased str alive name target × Spells c credentials)
attach_named-first_alias v str manager alive name info infos c target credentials found =
    let known = first-registry v str manager name info infos c found in
    let (accepted, names) =
      resolve_target-accepted str (λ id. c) alive target (register str 0 name new_registry)
        credentials in
    let resolved =
      ap (λ r. parse_connection_string (resolve_target str (λ id. c) alive target r).1) known in
    (
      λ e. elim (accepted (sym resolved ∙ e)) [
        | inl spells ↦ inl spells
        | inr (no_at, (id, is, spells)) ↦
            inr (no_at, found_alias-IsAliased str alive name target id is, spells)
      ],
      λ which. elim which [
        | inl spells ↦ resolved ∙ names (inl spells)
        | inr (no_at, aliased, spells) ↦
            resolved ∙ names (inr (no_at, (0, alias_found str alive name target aliased, spells)))
      ],
    )
