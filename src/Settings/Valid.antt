-- ===== src/Settings/Valid.antt =====
-- The bounds that `ApplyOptions` and `GetOracleSettings` keep the counts of the settings to.
use duckdb_oracle.Base.{
  inr, inl, ◌⊎◌, ℕ, ◌≤◌, ◌≡◌, refl, subst, Bool, true, false, Option, none, some, List, [], ◌∷◌,
  arith, if◌then◌else◌, Result, ok, ◌>>=◌, >>=-eq-ok, ok-injective, Text, lit, text_eq,
}
use duckdb_oracle.Duckdb.{Values, Strings}
use duckdb_oracle.Settings.{
  OracleSettings, default_settings, SettingError, at_least_one, apply_option, apply_options,
  get_oracle_settings, cast, bool_of, count_of, amount_of, override,
}

-- Every count that sizes an array, a fetch or the pool is at least one.
pub record IsValid (s : OracleSettings) : Type 0 where
  pub some_rows : 1 ≤ s.prefetch_rows
  pub some_slots : 1 ≤ s.array_size
  pub some_sessions : 1 ≤ s.connection_limit

default-IsValid : IsValid default_settings
unfolding default_settings
default-IsValid = ground arith

-- What a call that may throw returns is valid.
ReturnsValid : Result SettingError OracleSettings → Type 0
ReturnsValid r = (s : OracleSettings) → r ≡ ok s → IsValid s

if-ReturnsValid :
    (b : Bool) (x y : Result SettingError OracleSettings)
    → ReturnsValid x
    → ReturnsValid y
    → ReturnsValid (if b then x else y)
if-ReturnsValid true x y hx hy = hx
if-ReturnsValid false x y hx hy = hy

ok-ReturnsValid : (s : OracleSettings) → IsValid s → ReturnsValid (ok s)
unfolding ReturnsValid
ok-ReturnsValid s h s' e = subst IsValid (ok-injective e) h

>>=-ReturnsValid :
    {A : Type 0} (m : Result SettingError A) (f : A → Result SettingError OracleSettings)
    → ((a : A) → m ≡ ok a → ReturnsValid (f a))
    → ReturnsValid (m >>= f)
unfolding ReturnsValid
>>=-ReturnsValid m f h s e = let (a, got, rest) = >>=-eq-ok m f e in h a got s rest

-- A count is at least one, whatever the option holds.
count_of-pos : (v : Values) (val : v.Value) (n : ℕ) → count_of v val ≡ ok n → 1 ≤ n
unfolding count_of cast at_least_one
count_of-pos v val n e = let (z, got, rest) = >>=-eq-ok (cast (v.get_int64 val)) _ e in ground arith

-- A setting that is no count is set.
other_set :
    {A : Type 0} (m : Result SettingError A) (f : A → OracleSettings) (s : OracleSettings)
    → IsValid s
    → ((a : A)
        → ((f a).prefetch_rows ≡ s.prefetch_rows)
          × ((f a).array_size ≡ s.array_size)
          × ((f a).connection_limit ≡ s.connection_limit))
    → ReturnsValid (m >>= λ a. ok (f a))
other_set m f s h same =
    >>=-ReturnsValid m (λ a. ok (f a))
      (λ a got. let (rows, slots, sessions) = same a in ok-ReturnsValid (f a) (ground arith))

count_set :
    (v : Values) (val : v.Value) (f : ℕ → OracleSettings)
    → ((n : ℕ) → 1 ≤ n → IsValid (f n))
    → ReturnsValid (count_of v val >>= λ n. ok (f n))
count_set v val f h =
    >>=-ReturnsValid (count_of v val) (λ n. ok (f n))
      (λ n got. ok-ReturnsValid (f n) (h n (count_of-pos v val n got)))

-- One option keeps the counts at one or more.
apply_option-IsValid :
    (v : Values) (key : Text) (val : v.Value) (s : OracleSettings)
    → IsValid s
    → ReturnsValid (apply_option v key val s)
unfolding apply_option
apply_option-IsValid v key val s h =
    if-ReturnsValid (text_eq key (lit "enable_pushdown")) _ _
      (other_set (bool_of v val) (λ a. record s { enable_pushdown = a }) s h
        (λ a. (refl, refl, refl)))
      (if-ReturnsValid (text_eq key (lit "prefetch_rows")) _ _
        (count_set v val (λ n. record s { prefetch_rows = n }) (λ n pos. ground arith))
        (if-ReturnsValid (text_eq key (lit "prefetch_memory")) _ _
          (other_set (amount_of v val) (λ a. record s { prefetch_memory = a }) s h
            (λ a. (refl, refl, refl)))
          (if-ReturnsValid (text_eq key (lit "array_size")) _ _
            (count_set v val (λ n. record s { array_size = n }) (λ n pos. ground arith))
            (if-ReturnsValid (text_eq key (lit "connection_cache")) _ _
              (other_set (bool_of v val) (λ a. record s { connection_cache = a }) s h
                (λ a. (refl, refl, refl)))
              (if-ReturnsValid (text_eq key (lit "connection_limit")) _ _
                (count_set v val (λ n. record s { connection_limit = n }) (λ n pos. ground arith))
                (if-ReturnsValid (text_eq key (lit "debug_show_queries")) _ _
                  (other_set (bool_of v val) (λ a. record s { debug_show_queries = a }) s h
                    (λ a. (refl, refl, refl)))
                  (if-ReturnsValid (text_eq key (lit "lazy_schema_loading")) _ _
                    (other_set (bool_of v val) (λ a. record s { lazy_schema_loading = a }) s h
                      (λ a. (refl, refl, refl)))
                    (if-ReturnsValid (text_eq key (lit "metadata_object_types")) _ _
                      (ok-ReturnsValid (record s { metadata_object_types = v.to_string val })
                        (ground arith))
                      (if-ReturnsValid (text_eq key (lit "metadata_result_limit")) _ _
                        (other_set (amount_of v val) (λ a. record s { metadata_result_limit = a }) s
                          h (λ a. (refl, refl, refl)))
                        (if-ReturnsValid (text_eq key (lit "use_current_schema")) _ _
                          (other_set (bool_of v val) (λ a. record s { use_current_schema = a }) s h
                            (λ a. (refl, refl, refl)))
                          (if-ReturnsValid (text_eq key (lit "try_native_lobs")) _ _
                            (other_set (bool_of v val) (λ a. record s { try_native_lobs = a }) s h
                              (λ a. (refl, refl, refl)))
                            (if-ReturnsValid (text_eq key (lit "lob_max_size")) _ _
                              (other_set (amount_of v val) (λ a. record s { lob_max_size = a }) s h
                                (λ a. (refl, refl, refl)))
                              (if-ReturnsValid (text_eq key (lit "vector_to_list")) _ _
                                (other_set (bool_of v val) (λ a. record s { vector_to_list = a }) s
                                  h (λ a. (refl, refl, refl)))
                                (if-ReturnsValid (text_eq key (lit "enable_type_conversion")) _ _
                                  (other_set (bool_of v val)
                                    (λ a. record s { enable_type_conversion = a }) s h
                                    (λ a. (refl, refl, refl)))
                                  (if-ReturnsValid (text_eq key (lit "enable_spatial_types")) _ _
                                    (other_set (bool_of v val)
                                      (λ a. record s { enable_spatial_types = a }) s h
                                      (λ a. (refl, refl, refl)))
                                    (ok-ReturnsValid s h))))))))))))))))

apply_options-IsValid :
    (v : Values) (str : Strings) (options : List (Text × v.Value)) (s : OracleSettings)
    → IsValid s
    → ReturnsValid (apply_options v str options s)
unfolding apply_options ReturnsValid
apply_options-IsValid v str [] s h = ok-ReturnsValid s h
apply_options-IsValid v str ((key, val) ∷ options) s h =
    >>=-ReturnsValid (apply_option v (str.lower key) val s) _ (λ s1 got.
      apply_options-IsValid v str options s1
        (apply_option-IsValid v (str.lower key) val s h s1 got))

override-pos :
    (v : Values) (o : Option v.Value) (old n : ℕ)
    → 1 ≤ old
    → override v (count_of v) o old ≡ ok n
    → 1 ≤ n
unfolding override
override-pos v none old n h e = subst (λ k. 1 ≤ k) (ok-injective e) h
override-pos v (some val) old n h e = count_of-pos v val n e

over-IsValid :
    (v : Values) (current : Text → Option v.Value) (s : OracleSettings)
    → IsValid s
    → ReturnsValid (get_oracle_settings v current (some s))
unfolding get_oracle_settings
over-IsValid v current s h =
    >>=-ReturnsValid
      (override v (bool_of v) (current (lit "oracle_enable_pushdown")) s.enable_pushdown) _
      (λ pushdown got.
        >>=-ReturnsValid
          (override v (count_of v) (current (lit "oracle_prefetch_rows")) s.prefetch_rows) _
          (λ rows got_rows.
            >>=-ReturnsValid
              (override v (amount_of v) (current (lit "oracle_prefetch_memory")) s.prefetch_memory)
              _
              (λ memory got.
                >>=-ReturnsValid
                  (override v (count_of v) (current (lit "oracle_array_size")) s.array_size) _
                  (λ array got_array.
                    >>=-ReturnsValid
                      (override v (bool_of v) (current (lit "oracle_connection_cache"))
                        s.connection_cache)
                      _
                      (λ cache got.
                        >>=-ReturnsValid
                          (override v (count_of v) (current (lit "oracle_connection_limit"))
                            s.connection_limit)
                          _
                          (λ limit got_limit.
                            >>=-ReturnsValid
                              (override v (bool_of v) (current (lit "oracle_debug_show_queries"))
                                s.debug_show_queries)
                              _
                              (λ debug got.
                                >>=-ReturnsValid
                                  (override v (bool_of v)
                                    (current (lit "oracle_lazy_schema_loading"))
                                    s.lazy_schema_loading)
                                  _
                                  (λ lazy got.
                                    >>=-ReturnsValid
                                      (override v (λ val. ok (v.to_string val))
                                        (current (lit "oracle_metadata_object_types"))
                                        s.metadata_object_types)
                                      _
                                      (λ types got.
                                        >>=-ReturnsValid
                                          (override v (amount_of v)
                                            (current (lit "oracle_metadata_result_limit"))
                                            s.metadata_result_limit)
                                          _
                                          (λ results got.
                                            >>=-ReturnsValid
                                              (override v (bool_of v)
                                                (current (lit "oracle_use_current_schema"))
                                                s.use_current_schema)
                                              _
                                              (λ schema got.
                                                >>=-ReturnsValid
                                                  (override v (bool_of v)
                                                    (current (lit "oracle_enable_spatial_types"))
                                                    s.enable_spatial_types)
                                                  _
                                                  (λ spatial got. ok-ReturnsValid _ (record {
                                                    some_rows =
                                                        override-pos v _ _ rows h.some_rows
                                                          got_rows;
                                                    some_slots =
                                                        override-pos v _ _ array h.some_slots
                                                          got_array;
                                                    some_sessions =
                                                        override-pos v _ _ limit h.some_sessions
                                                          got_limit;
                                                  })))))))))))))

-- With no database attached, or one whose options `ApplyOptions` accepted, whatever the session
-- answers: the settings that `GetOracleSettings` returns have at least one row to prefetch, one
-- array slot and one session in the pool.
pub get_oracle_settings-IsValid :
    (v : Values) (str : Strings) (options : List (Text × v.Value)) (attached : OracleSettings)
    → apply_options v str options default_settings ≡ ok attached
    → (current : Text → Option v.Value) (state : Option OracleSettings)
    → (state ≡ none) ⊎ (state ≡ some attached)
    → (s : OracleSettings) → get_oracle_settings v current state ≡ ok s
    → IsValid s
unfolding get_oracle_settings ReturnsValid
get_oracle_settings-IsValid v str options attached accepted current state is s e =
    let valid = apply_options-IsValid v str options default_settings default-IsValid in
    elim is [
      | inl q ↦
          over-IsValid v current default_settings default-IsValid s
            (subst (λ o. get_oracle_settings v current o ≡ ok s) q e)
      | inr q ↦
          over-IsValid v current attached (valid attached accepted) s
            (subst (λ o. get_oracle_settings v current o ≡ ok s) q e)
    ]
