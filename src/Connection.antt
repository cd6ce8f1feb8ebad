-- ===== src/Connection.antt =====
-- `OracleConnection` and `OracleResult` of src/oracle_connection.cpp and
-- src/include/oracle_connection.hpp: a query of the catalog, from its statement handle to its rows.
-- What OCI answers is an argument: whether a call succeeds, the columns, and the replies to the
-- fetches, one for each call.
pub mod Rows
pub mod Access
mod Tests
use duckdb_oracle.Base.{
  ℕ, zero, suc, ◌+◌, ◌-◌, ◌*◌, ◌/◌, ◌%◌, ◌^◌, ◌≤◌, ◌<◌, ◌≡◌, ◌≢◌, ◌↔◌, ◌⊎◌, inl, inr, refl, sym, ap,
  ◌∙◌, subst, Bool, true, false, not, ◌&&◌, ◌||◌, Option, none, some, List, [], ◌∷◌, ◌++◌, map,
  arith, ltb, leb, ◌==◌, if◌then◌else◌, ==_refl, ==_iff, Bool-cases, Option-cases, Result, ok,
  throw, throw_if, >>=-eq-ok, ok-injective, length, get_elem?, take, drop, replicate, length-append,
  take-append_self, drop-append_self, length-replicate, length-map, All, Text, lit, text_eq,
  text_eq_iff, text_eq_refl, empty, has, index, find, substr, substr_from, decimal, ℤ, pos, negsuc,
  to_idx, is_le_zero, is_gt, u64_mod, String,
}

pub data Call : Type 0 where
  alloc_statement prepare describe get_columns execute define fetch commit rollback : Call

pub data QueryError : Type 0 where
  not_connected out_of_range : QueryError
  call_error : Call → QueryError

pub record OracleResult : Type 0 where
  pub columns : List Text
  pub rows : List (List Text)

-- A reply to a fetch of one row; `none` is a NULL.
pub data Reply : Type 0 where
  row : List (Option Text) → Reply
  no_data failure : Reply

-- What OCI answers to the calls of one query.
pub record Cursor : Type 0 where
  pub succeeds : Call → Bool
  pub columns : List Text
  pub replies : List Reply

-- A NULL is stored as the empty text.
abbrev pub text_or_empty : Option Text → Text
text_or_empty none = []
text_or_empty (some text) = text

unfoldable pub with_row :
    List Text
    → Option (Result QueryError (List (List Text)))
    → Option (Result QueryError (List (List Text)))
with_row r none = none
with_row r (some (throw problem)) = some (throw problem)
with_row r (some (ok rows)) = some (ok (r ∷ rows))

-- The loop over the rows; `none` is a loop that asks for more replies than there are.
unfoldable pub fetch_rows : List Reply → Option (Result QueryError (List (List Text)))
fetch_rows [] = none
fetch_rows (no_data ∷ replies) = some (ok [])
fetch_rows (failure ∷ replies) = some (throw (call_error fetch))
fetch_rows (row values ∷ replies) = with_row (map text_or_empty values) (fetch_rows replies)

abbrev pub with_columns :
    List Text
    → Option (Result QueryError (List (List Text)))
    → Option (Result QueryError OracleResult)
with_columns columns none = none
with_columns columns (some (throw problem)) = some (throw problem)
with_columns columns (some (ok rows)) = some (ok (record { columns = columns; rows = rows }))

-- The calls on the statement, in their order; the first that fails throws.
unfoldable pub after_calls :
    (Call → Bool)
    → List Call
    → Option (Result QueryError OracleResult)
    → Option (Result QueryError OracleResult)
after_calls succeeds [] rest = rest
after_calls succeeds (call ∷ calls) rest =
    let later = after_calls succeeds calls rest in
    if succeeds call then later else some (throw (call_error call))

unfoldable pub run_statement : Cursor → Option (Result QueryError OracleResult)
unfolding after_calls fetch_rows
run_statement c =
    after_calls c.succeeds (prepare ∷ describe ∷ get_columns ∷ execute ∷ define ∷ [])
      (with_columns c.columns (fetch_rows c.replies))

-- `Query`. The statement handle is freed wherever the query is left.
unfoldable pub query : Bool → Cursor → Option (Result QueryError OracleResult)
unfolding run_statement
query connected c =
    if not connected
    then some (throw not_connected)
    else after_calls c.succeeds (alloc_statement ∷ []) (run_statement c)

-- `Commit` and `Rollback`.
abbrev pub finish_with : Call → Bool → (Call → Bool) → Result QueryError (Unit {0})
finish_with call connected succeeds =
    if not connected
    then throw not_connected
    else if succeeds call
    then ok tt
    else throw (call_error call)

-- `GetString`
pub get_string : OracleResult → ℕ → ℕ → Result QueryError Text
get_string result i j = elim (get_elem? result.rows i) [
  | none ↦ throw out_of_range
  | some cells ↦ elim (get_elem? cells j) [ none ↦ throw out_of_range | some text ↦ ok text ]
]
