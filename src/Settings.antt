-- ===== src/Settings.antt =====
-- src/include/oracle_settings.hpp, `ApplyOptions` of src/storage/oracle_catalog.cpp and
-- `GetOracleSettings` of src/oracle_extension.cpp: defaults, the options of ATTACH, and the session
-- settings laid over them.
mod Tests
pub mod Valid
pub mod Session
use duckdb_oracle.Base.{
  ℕ, Bool, true, false, Option, none, some, List, [], ◌∷◌, if◌then◌else◌, Result, ok, throw, ◌>>=◌,
  Text, lit, text_eq, ℤ, to_idx, is_le_zero,
}
use Prim.Native.Nat.{max}
use duckdb_oracle.Duckdb.{Values, Strings}

pub record OracleSettings : Type 0 where
  pub enable_pushdown : Bool
  pub prefetch_rows : ℕ
  pub prefetch_memory : ℕ
  pub array_size : ℕ
  pub connection_cache : Bool
  pub connection_limit : ℕ
  pub debug_show_queries : Bool
  pub lazy_schema_loading : Bool
  pub metadata_object_types : Text
  pub metadata_result_limit : ℕ
  pub use_current_schema : Bool
  pub try_native_lobs : Bool
  pub lob_max_size : ℕ
  pub vector_to_list : Bool
  pub enable_type_conversion : Bool
  pub enable_spatial_types : Bool

unfoldable pub default_settings : OracleSettings
default_settings = record {
  enable_pushdown = true;
  prefetch_rows = 200;
  prefetch_memory = 0;
  array_size = 256;
  connection_cache = true;
  connection_limit = 8;
  debug_show_queries = false;
  lazy_schema_loading = true;
  metadata_object_types = lit "TABLE,VIEW,SYNONYM,MATERIALIZED VIEW";
  metadata_result_limit = 10000;
  use_current_schema = true;
  try_native_lobs = true;
  lob_max_size = 33554432;
  vector_to_list = true;
  enable_type_conversion = true;
  enable_spatial_types = true;
}

-- `GetValue` of an option threw.
pub data SettingError : Type 0 where
  bad_cast : SettingError

unfoldable pub cast {ℓ} : {A : Type ℓ} → Option A → Result SettingError A
cast none = throw bad_cast
cast (some a) = ok a

-- `MaxValue<idx_t>(1, static_cast<idx_t>(val))`
unfoldable pub at_least_one : ℤ → ℕ
at_least_one val = max 1 (to_idx val)

-- `val <= 0 ? 0 : static_cast<idx_t>(val)`
unfoldable pub zero_or_more : ℤ → ℕ
zero_or_more val = if is_le_zero val then 0 else to_idx val

module _ (v : Values) where
  open v use {Value, to_string, get_int64, get_bool}

  unfoldable pub bool_of : Value → Result SettingError Bool
  unfolding cast
  bool_of val = cast (get_bool val)

  unfoldable pub count_of : Value → Result SettingError ℕ
  unfolding cast
  count_of val = do n ← cast (get_int64 val); ok (at_least_one n)

  unfoldable pub amount_of : Value → Result SettingError ℕ
  unfolding cast
  amount_of val = do n ← cast (get_int64 val); ok (zero_or_more n)

  -- One option of ATTACH; `key` is in lower case. An unknown key is ignored.
  pub apply_option : Text → Value → OracleSettings → Result SettingError OracleSettings
  unfolding bool_of count_of amount_of
  apply_option key val s =
      if text_eq key (lit "enable_pushdown")
      then (do b ← bool_of val; ok (record s { enable_pushdown = b }))
      else if text_eq key (lit "prefetch_rows")
      then (do n ← count_of val; ok (record s { prefetch_rows = n }))
      else if text_eq key (lit "prefetch_memory")
      then (do n ← amount_of val; ok (record s { prefetch_memory = n }))
      else if text_eq key (lit "array_size")
      then (do n ← count_of val; ok (record s { array_size = n }))
      else if text_eq key (lit "connection_cache")
      then (do b ← bool_of val; ok (record s { connection_cache = b }))
      else if text_eq key (lit "connection_limit")
      then (do n ← count_of val; ok (record s { connection_limit = n }))
      else if text_eq key (lit "debug_show_queries")
      then (do b ← bool_of val; ok (record s { debug_show_queries = b }))
      else if text_eq key (lit "lazy_schema_loading")
      then (do b ← bool_of val; ok (record s { lazy_schema_loading = b }))
      else if text_eq key (lit "metadata_object_types")
      then ok (record s { metadata_object_types = to_string val })
      else if text_eq key (lit "metadata_result_limit")
      then (do n ← amount_of val; ok (record s { metadata_result_limit = n }))
      else if text_eq key (lit "use_current_schema")
      then (do b ← bool_of val; ok (record s { use_current_schema = b }))
      else if text_eq key (lit "try_native_lobs")
      then (do b ← bool_of val; ok (record s { try_native_lobs = b }))
      else if text_eq key (lit "lob_max_size")
      then (do n ← amount_of val; ok (record s { lob_max_size = n }))
      else if text_eq key (lit "vector_to_list")
      then (do b ← bool_of val; ok (record s { vector_to_list = b }))
      else if text_eq key (lit "enable_type_conversion")
      then (do b ← bool_of val; ok (record s { enable_type_conversion = b }))
      else if text_eq key (lit "enable_spatial_types")
      then (do b ← bool_of val; ok (record s { enable_spatial_types = b }))
      else ok s

  -- `ApplyOptions`, in the order in which the map is walked.
  pub apply_options :
      Strings → List (Text × Value) → OracleSettings → Result SettingError OracleSettings
  apply_options str [] s = ok s
  apply_options str ((key, val) ∷ options) s = do
    s' ← apply_option (str.lower key) val s
    apply_options str options s'

  -- A setting that the session does not answer for stays as it is.
  unfoldable pub override :
      {A : Type 0} → (Value → Result SettingError A) → Option Value → A → Result SettingError A
  override read none old = ok old
  override read (some val) old = read val

  -- `GetOracleSettings`; `current` is `TryGetCurrentSetting`.
  unfoldable pub get_oracle_settings :
      (Text → Option Value) → Option OracleSettings → Result SettingError OracleSettings
  unfolding bool_of count_of amount_of override
  get_oracle_settings current state = do
    let s : OracleSettings = elim state [ none ↦ default_settings | some attached ↦ attached ]
    pushdown ← override bool_of (current (lit "oracle_enable_pushdown")) s.enable_pushdown
    rows ← override count_of (current (lit "oracle_prefetch_rows")) s.prefetch_rows
    memory ← override amount_of (current (lit "oracle_prefetch_memory")) s.prefetch_memory
    array ← override count_of (current (lit "oracle_array_size")) s.array_size
    cache ← override bool_of (current (lit "oracle_connection_cache")) s.connection_cache
    limit ← override count_of (current (lit "oracle_connection_limit")) s.connection_limit
    debug ← override bool_of (current (lit "oracle_debug_show_queries")) s.debug_show_queries
    lazy ← override bool_of (current (lit "oracle_lazy_schema_loading")) s.lazy_schema_loading
    types ←
        override (λ val. ok (to_string val)) (current (lit "oracle_metadata_object_types"))
          s.metadata_object_types
    results ←
        override amount_of (current (lit "oracle_metadata_result_limit")) s.metadata_result_limit
    schema ← override bool_of (current (lit "oracle_use_current_schema")) s.use_current_schema
    spatial ← override bool_of (current (lit "oracle_enable_spatial_types")) s.enable_spatial_types
    ok (record s {
      enable_pushdown = pushdown;
      prefetch_rows = rows;
      prefetch_memory = memory;
      array_size = array;
      connection_cache = cache;
      connection_limit = limit;
      debug_show_queries = debug;
      lazy_schema_loading = lazy;
      metadata_object_types = types;
      metadata_result_limit = results;
      use_current_schema = schema;
      enable_spatial_types = spatial;
    })
