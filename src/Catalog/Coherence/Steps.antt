-- ===== src/Catalog/Coherence/Steps.antt =====
-- The steps that the operations of src/storage/oracle_catalog.cpp share.
use mathlib.Core.Option.{some-injective}
use duckdb_oracle.Base.{
  ◌≡◌, true, false, some, none, List, ◌∷◌, ok, Text, Result, throw, refl, sym, subst, ap, ◌∙◌, Bool,
  text_eq, if-Holds, text_eq_iff, Option,
}
use duckdb_oracle.Duckdb.{Strings}
use duckdb_oracle.Settings.{OracleSettings}
use duckdb_oracle.Base.Action.{◌>>=◌, Action, and_then, ◌>>◌}
use duckdb_oracle.Catalog.Answers.{map_ok, rows_or_throw, asked}
use duckdb_oracle.Catalog.State.{
  CatalogState, Database, find_entry, CatalogError, cannot_connect, cannot_query, ensure_connection,
  ask,
}
use duckdb_oracle.Catalog.Coherence.{
  login, IsCoherent, Gives, connected-IsCoherent, ensure_connection_lem,
}

-- What holds of a new entry and of those before it holds of all.
pub find_entry-cons :
    (P : Text → List Text → Type 0) (name : Text) (names : List Text)
    (cache : List (Text × List Text))
    → P name names
    → ((key : Text) (entries : List Text) → find_entry cache key ≡ some entries → P key entries)
    → (key : Text) (entries : List Text) → find_entry ((name, names) ∷ cache) key ≡ some entries
    → P key entries
find_entry-cons P name names cache new old key entries found =
    if-Holds (λ entry. entry ≡ some entries → P key entries) (text_eq name key) {x = some names}
      {y = find_entry cache key}
      (λ same is.
        subst (λ n. P n entries) ((text_eq_iff name key).0 same)
          (subst (P name) (some-injective names entries is) new))
      (λ other is. old key entries is) found

module _ (str : Strings) (quote : Text → Text) (settings : OracleSettings) (db : Database) where
  abbrev pub on : CatalogState → CatalogState
  on s = record s { connected = db.connects }

  by_login :
      {A : Type 0} (connects : Bool) (t : CatalogState) (next : Action CatalogState CatalogError A)
      (answer : Result CatalogError A)
      → IsCoherent str quote settings db t
      → (connects ≡ true → Gives str quote settings db (next t) answer)
      → (connects ≡ false → answer ≡ throw cannot_connect)
      → Gives str quote settings db (and_then (t, login connects) (λ _. next)) answer
  by_login true t next answer h up down = up refl
  by_login false t next answer h up down = (h, sym (down refl))

  -- What follows a login need only be right where there is one.
  pub after_login :
      {A : Type 0} (next : Action CatalogState CatalogError A) (s : CatalogState)
      (answer : Result CatalogError A)
      → IsCoherent str quote settings db s
      → (db.connects ≡ true → Gives str quote settings db (next (on s)) answer)
      → (db.connects ≡ false → answer ≡ throw cannot_connect)
      → Gives str quote settings db ((ensure_connection str quote settings db >> next) s) answer
  after_login next s answer h up down =
      subst (λ entered. Gives str quote settings db (and_then entered (λ _. next)) answer)
        (sym (ensure_connection_lem str quote settings db s h))
        (by_login db.connects (on s) next answer (connected-IsCoherent str quote settings db s h) up
          down)

  by_reply :
      {A : Type 0} (reply : Option (List (List Text)))
      (keep : List (List Text) → Action CatalogState CatalogError A) (f : List (List Text) → A)
      (s : CatalogState)
      → IsCoherent str quote settings db s
      → ((rows : List (List Text))
          → reply ≡ some rows
          → Gives str quote settings db (keep rows s) (ok (f rows)))
      → Gives str quote settings db
          (and_then (elim reply [ none ↦ (s, throw cannot_query) | some rows ↦ (s, ok rows) ]) keep)
          (map_ok f (rows_or_throw reply))
  by_reply none keep f s h k = (h, refl)
  by_reply (some rows) keep f s h k = k rows refl

  pub asked_lem :
      (query : Text)
      → db.connects ≡ true
      → asked str quote settings db query ≡ rows_or_throw (db.answer query)
  unfolding asked
  asked_lem query up = rw up refl

  -- The rows of a query on a session.
  pub after_query :
      {A : Type 0} (query : Text) (keep : List (List Text) → Action CatalogState CatalogError A)
      (f : List (List Text) → A) (s : CatalogState)
      → IsCoherent str quote settings db s
      → db.connects ≡ true
      → ((rows : List (List Text))
          → asked str quote settings db query ≡ ok rows
          → Gives str quote settings db (keep rows s) (ok (f rows)))
      → Gives str quote settings db
          ((ask str quote settings db query >>= keep) s)
          (map_ok f (asked str quote settings db query))
  unfolding ask
  after_query query keep f s h up k =
      subst
        (λ answer.
          Gives str quote settings db ((ask str quote settings db query >>= keep) s)
            (map_ok f answer))
        (sym (asked_lem query up))
        (by_reply (db.answer query) keep f s h
          (λ rows e. k rows (asked_lem query up ∙ ap rows_or_throw e)))

  pub refused :
      {A : Type 0} (query : Text) (f : List (List Text) → A)
      → db.connects ≡ false
      → map_ok f (asked str quote settings db query) ≡ throw cannot_connect
  unfolding asked
  refused query f down = rw down refl

  pub by_cache :
      (found : Option (List Text)) (missing : CatalogState × Result CatalogError (List Text))
      (s : CatalogState) (answer : Result CatalogError (List Text))
      → IsCoherent str quote settings db s
      → ((names : List Text) → found ≡ some names → answer ≡ ok names)
      → Gives str quote settings db missing answer
      → Gives str quote settings db
          (elim found [ some names ↦ (s, ok names) | none ↦ missing ])
          answer
  by_cache none missing s answer h hit miss = miss
  by_cache (some names) missing s answer h hit miss = (h, sym (hit names refl))
