-- ===== src/Settings/Tests.antt =====
-- Runs of `ApplyOptions` and `GetOracleSettings`.
use duckdb_oracle.Base.{
  [], ◌∷◌, ◌≡◌, inr, refl, Option, none, some, List, [], ◌∷◌, ok, ◌>>=◌, All, Text, lit, text_eq,
  pos, to_idx,
}
use duckdb_oracle.Samples.{samples, Sample, ascii, number_of}
use duckdb_oracle.Settings.{
  OracleSettings, default_settings, apply_option, apply_options, get_oracle_settings, count_of,
  cast, at_least_one, override, bool_of, amount_of,
}
use duckdb_oracle.Settings.Valid.{IsValid, get_oracle_settings-IsValid}
use duckdb_oracle.Settings.Session.{Answers, session_keys, session_settings_win, lay_over}

abbrev options : List (Text × Sample)
options = (lit "ARRAY_SIZE", number_of (pos 0)) ∷ []

abbrev attached : OracleSettings
attached = record default_settings { array_size = 1 }

accepted : apply_options samples ascii options default_settings ≡ ok attached
unfolding apply_options apply_option count_of bool_of amount_of cast at_least_one to_idx lit text_eq
accepted = refl

abbrev silent : Text → Option Sample
silent key = none

silent_session : get_oracle_settings samples silent (some attached) ≡ ok attached
unfolding get_oracle_settings override
silent_session = refl

get_oracle_settings-IsValid_example : IsValid attached
get_oracle_settings-IsValid_example =
    get_oracle_settings-IsValid samples ascii options attached accepted silent (some attached)
      (inr refl) attached silent_session

-- A session that answers 1 to everything.
abbrev talks : Text → Option Sample
talks key = some (number_of (pos 1))

talks_always : (keys : List Text) → All (Answers talks) keys
talks_always [] = tt
talks_always (key ∷ keys) = ((number_of (pos 1), refl), talks_always keys)

session_decides :
    get_oracle_settings samples talks (some default_settings)
    ≡ (get_oracle_settings samples talks (some attached) >>= λ s. ok (lay_over s default_settings))
session_decides =
    session_settings_win samples talks (talks_always session_keys) attached default_settings
