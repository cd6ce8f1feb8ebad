-- ===== src/Functions/Options/Tests.antt =====
-- A session in which nothing was SET, and one that answers its own values.
use duckdb_oracle.Base.{◌≡◌, if◌then◌else◌, Bool, ◌>>=◌, refl, true, false, none, some, ok, pos}
use duckdb_oracle.Samples.{samples, samples_laws, number_of}
use duckdb_oracle.Settings.{OracleSettings, default_settings, get_oracle_settings}
use duckdb_oracle.Settings.Session.{lay_over}
use duckdb_oracle.Functions.Options.{Literals, extension_options}
use duckdb_oracle.Functions.Options.Session.{
  find_default, LiteralsLaws, attach_options_lost, registered_settings, fresh_session_settings,
}

abbrev literals : Literals samples
literals = record {
  boolean = λ b. number_of (if b then pos 1 else pos 0);
  ubigint = λ n. number_of (pos n);
}

reads : (b : Bool) → samples.get_bool (literals.boolean b) ≡ some b
reads true = refl
reads false = refl

literals_laws : LiteralsLaws samples literals
literals_laws = record { get_bool-boolean = reads; get_int64-ubigint = λ n h. refl }

-- ATTACH with another array size.
abbrev attached : OracleSettings
attached = record default_settings { array_size = 1 }

fresh_session_settings_example :
    (get_oracle_settings samples (find_default (extension_options samples literals)) (some attached)
      ≡ ok (registered_settings attached))
    × (get_oracle_settings samples (find_default (extension_options samples literals)) none
        ≡ ok (record default_settings { prefetch_rows = 1024 }))
fresh_session_settings_example =
    fresh_session_settings samples literals (find_default (extension_options samples literals))
      samples_laws literals_laws (λ key. refl) attached

attach_options_lost_example :
    get_oracle_settings samples
      (find_default (extension_options samples literals))
      (some default_settings)
    ≡ (get_oracle_settings samples
          (find_default (extension_options samples literals))
          (some attached)
        >>= λ s. ok (lay_over s default_settings))
attach_options_lost_example =
    attach_options_lost samples literals (find_default (extension_options samples literals))
      (λ key val e. (val, e)) attached default_settings
