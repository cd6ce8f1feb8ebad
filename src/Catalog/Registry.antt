-- ===== src/Catalog/Registry.antt =====
-- The registry of catalog states in src/storage/oracle_catalog.cpp. A state is a number, and a weak
-- pointer is the number of its state; which states are alive is an argument.
pub mod Lookup
use duckdb_oracle.Base.{
  ℕ, zero, suc, ◌+◌, ◌-◌, ◌*◌, ◌/◌, ◌%◌, ◌^◌, ◌≤◌, ◌<◌, ◌≡◌, ◌≢◌, ◌↔◌, ◌⊎◌, inl, inr, refl, sym, ap,
  ◌∙◌, subst, Bool, true, false, not, ◌&&◌, ◌||◌, Option, none, some, List, [], ◌∷◌, ◌++◌, map,
  arith, ltb, leb, ◌==◌, if◌then◌else◌, ==_refl, ==_iff, Bool-cases, Option-cases, Result, ok,
  throw, throw_if, >>=-eq-ok, ok-injective, length, get_elem?, take, drop, replicate, length-append,
  take-append_self, drop-append_self, length-replicate, length-map, All, Text, lit, text_eq,
  text_eq_iff, text_eq_refl, empty, has, index, find, substr, substr_from, decimal, ℤ, pos, negsuc,
  to_idx, is_le_zero, is_gt, u64_mod, String,
}
use duckdb_oracle.Duckdb.{Strings}

-- `Registry()` and `AliasRegistry()`; of the aliases, the first entry of a key counts.
pub record Registry : Type 0 where
  pub states : List ℕ
  pub aliases : List (Text × ℕ)

abbrev pub new_registry : Registry
new_registry = record { states = []; aliases = [] }

abbrev pub find_alias : List (Text × ℕ) → Text → Option ℕ
find_alias [] key = none
find_alias ((name, id) ∷ aliases) key =
    let rest = find_alias aliases key in if text_eq name key then some id else rest

abbrev pub erase_alias : List (Text × ℕ) → Text → List (Text × ℕ)
erase_alias [] key = []
erase_alias ((name, id) ∷ aliases) key =
    let rest = erase_alias aliases key in if text_eq name key then rest else (name, id) ∷ rest

abbrev keep_alive : (ℕ → Bool) → List ℕ → List ℕ
keep_alive alive [] = []
keep_alive alive (id ∷ states) =
    let rest = keep_alive alive states in if alive id then id ∷ rest else rest

-- The caches that `ClearAllCaches` clears are those of the states that it keeps.
unfoldable pub clear_all_caches : (ℕ → Bool) → Registry → Registry
clear_all_caches alive r = record r { states = keep_alive alive r.states }

module _ (str : Strings) where
  -- `Register` with an alias.
  unfoldable pub register : ℕ → Text → Registry → Registry
  register id alias r = record {
    states = r.states ++ (id ∷ []);
    aliases = if empty alias then r.aliases else (str.lower alias, id) ∷ r.aliases;
  }

  -- The entry of the key, where there is one; that of a dead state is erased.
  unfoldable pub found_alias : (ℕ → Bool) → Text → Registry → Option ℕ → Registry × Option ℕ
  found_alias alive key r none = (r, none)
  found_alias alive key r (some id) =
      if alive id then (r, some id) else (record r { aliases = erase_alias r.aliases key }, none)

  -- `LookupByAlias`
  unfoldable pub lookup_by_alias : (ℕ → Bool) → Text → Registry → Registry × Option ℕ
  unfolding found_alias
  lookup_by_alias alive alias r =
      let key = str.lower alias in found_alias alive key r (find_alias r.aliases key)
