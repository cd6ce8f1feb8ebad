-- ===== src/Functions/Options/Session.antt =====
-- The settings that a scan gets in a session of src/oracle_extension.cpp.
use mathlib.Core.Path.{fun_ext}
use duckdb_oracle.Base.{
  ◌∙◌, ap, false, arith, true, ok, to_idx, ◌>>=◌, pos, All, ◌^◌, lit, ◌<◌, if◌then◌else◌, text_eq,
  ℕ, Option, ◌≡◌, List, Bool, Text, refl, none, some, [], ◌∷◌,
}
use duckdb_oracle.Duckdb.{Values, ValuesLaws}
use duckdb_oracle.Settings.{
  OracleSettings, default_settings, get_oracle_settings, override, bool_of, count_of, amount_of,
  cast, at_least_one, zero_or_more,
}
use duckdb_oracle.Settings.Session.{Answers, session_keys, lay_over, session_settings_win}
use duckdb_oracle.Functions.Options.{Literals, extension_options}

-- The default that is registered under a name.
pub find_default {ℓ} : {V : Type ℓ} → List (Text × V) → Text → Option V
find_default [] key = none
find_default ((name, val) ∷ options) key =
    let rest = find_default options key in if text_eq name key then some val else rest

-- What `GetValue` reads from a literal.
pub record LiteralsLaws (v : Values) (l : Literals v) : Type 0 where
  pub get_bool-boolean : (b : Bool) → v.get_bool (l.boolean b) ≡ some b
  pub get_int64-ubigint : (n : ℕ) → n < 2 ^ 63 → v.get_int64 (l.ubigint n) ≡ some (pos n)

module _ (v : Values) (l : Literals v) (current : Text → Option v.Value) where
  keys-Answers :
      ((key : Text) (val : v.Value)
        → find_default (extension_options v l) key ≡ some val
        → Answers current key)
      → All (Answers current) session_keys
  unfolding find_default text_eq lit
  keys-Answers answers = (
    answers _ _ refl,
    (
      answers _ _ refl,
      (
        answers _ _ refl,
        (
          answers _ _ refl,
          (
            answers _ _ refl,
            (
              answers _ _ refl,
              (
                answers _ _ refl,
                (
                  answers _ _ refl,
                  (
                    answers _ _ refl,
                    (answers _ _ refl, (answers _ _ refl, (answers _ _ refl, tt))),
                  ),
                ),
              ),
            ),
          ),
        ),
      ),
    ),
  )

-- The session asks for a registered setting and always gets a value: what was SET, or the default. So
-- two attached databases get the same settings in it but for the four that are not registered: what
-- ATTACH said of the others is lost.
pub attach_options_lost :
    (v : Values) (l : Literals v) (current : Text → Option v.Value)
    → ((key : Text) (val : v.Value)
        → find_default (extension_options v l) key ≡ some val
        → Answers current key)
    → (a b : OracleSettings)
    → get_oracle_settings v current (some b)
      ≡ (get_oracle_settings v current (some a) >>= λ s. ok (lay_over s b))
attach_options_lost v l current answers a b =
    session_settings_win v current (keys-Answers v l current answers) a b

-- The settings as they are registered, with those of `attached` that are not.
abbrev pub registered_settings : OracleSettings → OracleSettings
registered_settings attached = lay_over (record default_settings { prefetch_rows = 1024 }) attached

defaults-registered :
    (v : Values) (l : Literals v) (values : ValuesLaws v) (literals : LiteralsLaws v l)
    (attached : OracleSettings)
    → get_oracle_settings v (find_default (extension_options v l)) (some attached)
      ≡ ok (registered_settings attached)
unfolding get_oracle_settings find_default text_eq lit bool_of count_of amount_of cast at_least_one
    zero_or_more override lay_over default_settings to_idx
defaults-registered v l values literals attached =
    rw
      (
        literals.get_bool-boolean true,
        literals.get_int64-ubigint 1024 (omega arith),
        literals.get_int64-ubigint 0 (omega arith),
        literals.get_int64-ubigint 256 (omega arith),
        literals.get_int64-ubigint 8 (omega arith),
        literals.get_bool-boolean false,
        values.to_string-of_string,
        literals.get_int64-ubigint 10000 (omega arith),
      )
      refl

-- In a session in which no setting was SET, so that each has its registered default: a scan of an
-- attached database gets the registered defaults, and of its own settings only the four that are not
-- registered; a scan by `oracle_scan` or `oracle_query` gets the defaults of `OracleSettings` but
-- 1024 rows to prefetch in place of 200.
pub fresh_session_settings :
    (v : Values) (l : Literals v) (current : Text → Option v.Value) (values : ValuesLaws v)
    (literals : LiteralsLaws v l)
    → ((key : Text) → current key ≡ find_default (extension_options v l) key)
    → (attached : OracleSettings)
    → (get_oracle_settings v current (some attached) ≡ ok (registered_settings attached))
      × (get_oracle_settings v current none ≡ ok (record default_settings { prefetch_rows = 1024 }))
unfolding get_oracle_settings lay_over default_settings
fresh_session_settings v l current values literals unset attached =
    let same : current ≡ find_default (extension_options v l) = fun_ext unset in
    let settled = λ (a : OracleSettings).
      ap (λ c. get_oracle_settings v c (some a)) same ∙ defaults-registered v l values literals a in
    (settled attached, settled default_settings)
