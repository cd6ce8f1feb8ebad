-- ===== src/Functions/Target/Accepted.antt =====
-- Which targets of `oracle_execute` and `oracle_query` in src/oracle_extension.cpp name a database.
use mathlib.Core.Option.{some-injective}
use duckdb_oracle.Base.{
  if_false, if_true, refl, subst, Bool-cases, sym, ◌↔◌, Option, [], ◌∷◌, arith, ◌∙◌, ◌∷◌, ap, ◌++◌,
  ◌≡◌, ◌⊎◌, has, Bool, Text, ℕ, none, some, inl, inr, ok, true, false,
}
use duckdb_oracle.Duckdb.{Strings}
use duckdb_oracle.ConnectionString.{Credentials, parse_connection_string}
use duckdb_oracle.ConnectionString.Grammar.{Spells, parse_iff_Spells}
use duckdb_oracle.Catalog.Registry.{Registry, find_alias, found_alias, lookup_by_alias}
use duckdb_oracle.Catalog.Registry.Lookup.{if_alive}
use duckdb_oracle.Functions.Target.{found_target, resolve_target}

has-append : (c : ℕ) (s t : Text) → has c t ≡ true → has c (s ++ t) ≡ true
has-append c [] t h = h
has-append c (d ∷ s) t h = ground (arith, has-append c s t h)

-- A text that is accepted is a target that is no alias.
Spells-has_at : (s : Text) (c : Credentials) → Spells s c → has b'@' s ≡ true
Spells-has_at s c h =
    ap (has b'@') h.splits
    ∙ has-append b'@' c.user _
        (ground (arith, has-append b'@' c.password (b'@' ∷ c.db) (ground arith)))

module _ (str : Strings) (strings : ℕ → Text) (alive : ℕ → Bool) where
  -- The target is accepted by itself, or it names a living state whose connection string is.
  abbrev pub Names : Text → Registry → Credentials → Type 0
  Names target r c =
      Spells target c
      ⊎ ((has b'@' target ≡ false)
          × ((id : ℕ) × (if_alive alive (find_alias r.aliases (str.lower target)) ≡ some id)
              × Spells (strings id) c))

  found_reply :
      (key : Text) (r : Registry) (found : Option ℕ)
      → (found_alias str alive key r found).1 ≡ if_alive alive found
  unfolding found_alias
  found_reply key r none = refl
  found_reply key r (some id) = ground arith

  lookup_reply :
      (target : Text) (r : Registry)
      → (lookup_by_alias str alive target r).1
        ≡ if_alive alive (find_alias r.aliases (str.lower target))
  unfolding lookup_by_alias
  lookup_reply target r = found_reply (str.lower target) r (find_alias r.aliases (str.lower target))

  -- A target without '@' that a state was found for, or none.
  named_accepted :
      (target : Text) (c : Credentials) (found : Registry × Option ℕ)
      → has b'@' target ≡ false
      → (parse_connection_string (found_target str strings alive target found).1 ≡ ok c)
        ↔ ((id : ℕ) × (found.1 ≡ some id) × Spells (strings id) c)
  unfolding found_target
  named_accepted target c (r, none) h = (
    λ e. cc (sym h ∙ Spells-has_at target c ((parse_iff_Spells target c).0 e)),
    λ (id, e, spells). cc e,
  )
  named_accepted target c (r, some id) h = (
    λ e. (id, refl, (parse_iff_Spells (strings id) c).0 e),
    λ (j, e, spells).
        (parse_iff_Spells (strings id) c).1
          (subst (λ k. Spells (strings k) c) (sym (some-injective _ _ e)) spells),
  )

  -- What a target is resolved to is accepted as a connection string, with credentials `c`, exactly
  -- when the target spells them itself, whatever aliases there are, or it has no '@' and its lower
  -- case is the alias of a state that is alive, in whose first entry the connection string of the
  -- state spells them.
  pub resolve_target-accepted :
      (target : Text) (r : Registry) (c : Credentials)
      → (parse_connection_string (resolve_target str strings alive target r).1 ≡ ok c)
        ↔ Names target r c
  unfolding resolve_target
  resolve_target-accepted target r c = elim (Bool-cases (has b'@' target)) [
    | inl at ↦
        let same : parse_connection_string (resolve_target str strings alive target r).1
            ≡ parse_connection_string target =
          ap (λ (o : Registry × Text). parse_connection_string o.1) (if_true _ _ at) in
        (
          λ e. inl ((parse_iff_Spells target c).0 (sym same ∙ e)),
          λ names. elim names [
            | inl spells ↦ same ∙ (parse_iff_Spells target c).1 spells
            | inr (no_at, named) ↦ cc (sym at ∙ no_at)
          ],
        )
    | inr no_at ↦
        let found = lookup_by_alias str alive target r in
        let same : parse_connection_string (resolve_target str strings alive target r).1
            ≡ parse_connection_string (found_target str strings alive target found).1 =
          ap (λ (o : Registry × Text). parse_connection_string o.1) (if_false _ _ no_at) in
        let (names, named) = named_accepted target c found no_at in
        (
          λ e.
              let (id, is, spells) = names (sym same ∙ e) in
              inr (no_at, (id, sym (lookup_reply target r) ∙ is, spells)),
          λ names'. elim names' [
            | inl spells ↦ cc (sym no_at ∙ Spells-has_at target c spells)
            | inr (h, (id, is, spells)) ↦ same ∙ named (id, lookup_reply target r ∙ is, spells)
          ],
        )
  ]
