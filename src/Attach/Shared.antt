-- ===== src/Attach/Shared.antt =====
-- The one state of src/storage/oracle_storage_extension.cpp that every attached database gets.
use duckdb_oracle.Base.{
  Result-cases, throw, none, ◌≡◌, inl, inr, refl, subst, Option, none, some, List, [], ◌∷◌, Result,
  ok, throw, All, Text,
}
use duckdb_oracle.Duckdb.{Values, Strings}
use duckdb_oracle.Settings.{default_settings, OracleSettings, SettingError}
use duckdb_oracle.Attach.{
  AttachError, OracleCatalogState, SecretManager, AttachInfo, connection_string_of, apply_in_place,
  state_for, finish, oracle_attach, attach_all,
}

-- The database, if there is one, connects with `c`.
abbrev pub ConnectsTo : Text → Result AttachError OracleCatalogState → Type 0
ConnectsTo c (ok state) = state.connection_string ≡ c
ConnectsTo c (throw e) = Unit {0}

-- What an ATTACH leaves the extension with, and gives: both connect with `c`.
abbrev pub Keeps : Text → Option OracleCatalogState × Result AttachError OracleCatalogState → Type 0
Keeps c (after, result) =
    ((next : OracleCatalogState) × (after ≡ some next) × (next.connection_string ≡ c))
    × ConnectsTo c result

finish-Keeps :
    (v : Values) (state : OracleCatalogState) (out : OracleSettings × Option SettingError)
    → Keeps state.connection_string (finish v state out)
unfolding finish
finish-Keeps v state (settings, none) = ((record state { settings = settings }, refl, refl), refl)
finish-Keeps v state (settings, some e) = ((record state { settings = settings }, refl, refl), tt)

pub attach-Keeps :
    (v : Values) (str : Strings) (manager : SecretManager v) (state : OracleCatalogState)
    (info : AttachInfo v)
    → Keeps state.connection_string (oracle_attach v str manager (some state) info)
unfolding oracle_attach state_for
attach-Keeps v str manager state info =
    elim (Result-cases (connection_string_of v str manager info)) [
      | inl (c, e) ↦
          rw (e, oracle_attach)
            (finish-Keeps v state (apply_in_place v str info.options state.settings))
      | inr (problem, e) ↦ rw (e, oracle_attach) ((state, refl, refl), tt)
    ]

later-ConnectsTo :
    (v : Values) (str : Strings) (manager : SecretManager v) (state : OracleCatalogState)
    (infos : List (AttachInfo v))
    → All (ConnectsTo state.connection_string) (attach_all v str manager (some state) infos)
unfolding attach_all
later-ConnectsTo v str manager state [] = tt
later-ConnectsTo v str manager state (info ∷ infos) =
    let ((next, after_is, same), first) = attach-Keeps v str manager state info in
    let rest = later-ConnectsTo v str manager next infos in
    (
      first,
      rw after_is
          (subst (λ c. All (ConnectsTo c) (attach_all v str manager (some next) infos)) same rest),
    )

pub first-Keeps :
    (v : Values) (str : Strings) (manager : SecretManager v) (info : AttachInfo v) (c : Text)
    → connection_string_of v str manager info ≡ ok c
    → Keeps c (oracle_attach v str manager none info)
unfolding oracle_attach state_for
first-Keeps v str manager info c e =
    rw (e, oracle_attach)
      (finish-Keeps v (record { connection_string = c; settings = default_settings })
        (apply_in_place v str info.options default_settings))

-- Once an ATTACH has found its connection string `c`, in its path or in a secret, that database
-- and every one that is attached later connect with `c`, whatever paths and secrets the later ones
-- name.
pub attach_all-ConnectsTo :
    (v : Values) (str : Strings) (manager : SecretManager v) (info : AttachInfo v)
    (infos : List (AttachInfo v)) (c : Text)
    → connection_string_of v str manager info ≡ ok c
    → All (ConnectsTo c) (attach_all v str manager none (info ∷ infos))
unfolding attach_all
attach_all-ConnectsTo v str manager info infos c e =
    let ((next, after_is, same), first) = first-Keeps v str manager info c e in
    let rest = later-ConnectsTo v str manager next infos in
    (
      first,
      rw after_is
          (subst (λ d. All (ConnectsTo d) (attach_all v str manager (some next) infos)) same rest),
    )
