-- ===== src/Settings/Session.antt =====
-- The session settings that `GetOracleSettings` of src/oracle_extension.cpp lays over those of the
-- attached database.
use duckdb_oracle.Base.{
  refl, none, some, throw, ◌∙◌, ap, ok, ◌>>=◌, All, Result, ◌≡◌, Option, some, List, [], ◌∷◌, Text,
  lit,
}
use duckdb_oracle.Settings.{
  amount_of, count_of, bool_of, Values, SettingError, override, get_oracle_settings, OracleSettings,
}

-- The settings of which the session is asked.
abbrev pub session_keys : List Text
session_keys =
    lit "oracle_enable_pushdown"
    ∷ lit "oracle_prefetch_rows"
    ∷ lit "oracle_prefetch_memory"
    ∷ lit "oracle_array_size"
    ∷ lit "oracle_connection_cache"
    ∷ lit "oracle_connection_limit"
    ∷ lit "oracle_debug_show_queries"
    ∷ lit "oracle_lazy_schema_loading"
    ∷ lit "oracle_metadata_object_types"
    ∷ lit "oracle_metadata_result_limit"
    ∷ lit "oracle_use_current_schema"
    ∷ lit "oracle_enable_spatial_types"
    ∷ []

-- The settings `s` of one database with those of `attached` that no session setting touches.
unfoldable pub lay_over : OracleSettings → OracleSettings → OracleSettings
lay_over s attached = record s {
  try_native_lobs = attached.try_native_lobs;
  lob_max_size = attached.lob_max_size;
  vector_to_list = attached.vector_to_list;
  enable_type_conversion = attached.enable_type_conversion;
}

-- The session has a value for the setting.
abbrev pub Answers {ℓ} : {V : Type ℓ} → (Text → Option V) → Text → Type ℓ
Answers {V = V} current key = (val : V) × (current key ≡ some val)

override-same :
    (v : Values) {A : Type 0} (read : v.Value → Result SettingError A) (o : Option v.Value)
    {val : v.Value} (a b : A)
    → o ≡ some val
    → override v read o a ≡ override v read o b
unfolding override
override-same v read none a b e = cc
override-same v read (some val) a b e = refl

-- Two chains of calls that start alike, the second of which goes on after its end.
alike :
    {A B C : Type 0} {m n : Result SettingError A} (f : A → Result SettingError C)
    (g : A → Result SettingError B) (k : B → Result SettingError C)
    → m ≡ n
    → ((a : A) → f a ≡ (g a >>= k))
    → (m >>= f) ≡ ((n >>= g) >>= k)
alike {n = ok a} f g k e h = ap (λ r. r >>= f) e ∙ h a
alike {n = throw x} f g k e h = ap (λ r. r >>= f) e

-- When the session has a value for each of its twelve settings, two attached databases get the same
-- settings but for those that no session setting touches: what ATTACH said of the twelve is lost.
pub session_settings_win :
    (v : Values) (current : Text → Option v.Value)
    → All (Answers current) session_keys
    → (a b : OracleSettings)
    → get_oracle_settings v current (some b)
      ≡ (get_oracle_settings v current (some a) >>= λ s. ok (lay_over s b))
unfolding get_oracle_settings lay_over
session_settings_win v current answers a b =
    let ((_, e0), h0) = answers in
    let ((_, e1), h1) = h0 in
    let ((_, e2), h2) = h1 in
    let ((_, e3), h3) = h2 in
    let ((_, e4), h4) = h3 in
    let ((_, e5), h5) = h4 in
    let ((_, e6), h6) = h5 in
    let ((_, e7), h7) = h6 in
    let ((_, e8), h8) = h7 in
    let ((_, e9), h9) = h8 in
    let ((_, e10), h10) = h9 in
    let ((_, e11), h11) = h10 in
    alike _ _ _
      (override-same v (bool_of v) (current (lit "oracle_enable_pushdown")) b.enable_pushdown
        a.enable_pushdown e0)
      (λ _.
        alike _ _ _
          (override-same v (count_of v) (current (lit "oracle_prefetch_rows")) b.prefetch_rows
            a.prefetch_rows e1)
          (λ _.
            alike _ _ _
              (override-same v (amount_of v) (current (lit "oracle_prefetch_memory"))
                b.prefetch_memory a.prefetch_memory e2)
              (λ _.
                alike _ _ _
                  (override-same v (count_of v) (current (lit "oracle_array_size")) b.array_size
                    a.array_size e3)
                  (λ _.
                    alike _ _ _
                      (override-same v (bool_of v) (current (lit "oracle_connection_cache"))
                        b.connection_cache a.connection_cache e4)
                      (λ _.
                        alike _ _ _
                          (override-same v (count_of v) (current (lit "oracle_connection_limit"))
                            b.connection_limit a.connection_limit e5)
                          (λ _.
                            alike _ _ _
                              (override-same v (bool_of v)
                                (current (lit "oracle_debug_show_queries")) b.debug_show_queries
                                a.debug_show_queries e6)
                              (λ _.
                                alike _ _ _
                                  (override-same v (bool_of v)
                                    (current (lit "oracle_lazy_schema_loading"))
                                    b.lazy_schema_loading a.lazy_schema_loading e7)
                                  (λ _.
                                    alike _ _ _
                                      (override-same v (λ val. ok (v.to_string val))
                                        (current (lit "oracle_metadata_object_types"))
                                        b.metadata_object_types a.metadata_object_types e8)
                                      (λ _.
                                        alike _ _ _
                                          (override-same v (amount_of v)
                                            (current (lit "oracle_metadata_result_limit"))
                                            b.metadata_result_limit a.metadata_result_limit e9)
                                          (λ _.
                                            alike _ _ _
                                              (override-same v (bool_of v)
                                                (current (lit "oracle_use_current_schema"))
                                                b.use_current_schema a.use_current_schema e10)
                                              (λ _.
                                                alike _ _ _
                                                  (override-same v (bool_of v)
                                                    (current (lit "oracle_enable_spatial_types"))
                                                    b.enable_spatial_types a.enable_spatial_types
                                                    e11)
                                                  (λ _. refl))))))))))))
