-- ===== src/Oci/Release.antt =====
-- What a session of src/oracle_connection_manager.cpp takes from OCI, it gives back.
use duckdb_oracle.Base.{◌≡◌, Bool, true, false, if◌then◌else◌, ok, throw, Result, Text, refl, arith}
use duckdb_oracle.Base.Action.{◌>>◌, Action, and_then}
use duckdb_oracle.ConnectionString.{ConnectionError, Credentials, parse_connection_string}
use duckdb_oracle.Oci.{
  invalid_string, unchanged, finish_connection, alloc_server, alloc_service, attach, set_server,
  alloc_session, set_username, set_password, begin_session, set_session, alloc_statement,
  with_statement, alloc_error, OciCall, prepare_nls, execute_nls, ConnectError, oci_error, Handles,
  Setup, new_setup, checked, open_session, create_connection, destroy,
}
use duckdb_oracle.Oci.Ownership.{
  IsReleased, IsOwned, new_setup-IsOwned, with_error-IsOwned, with_server-IsOwned,
  with_service-IsOwned, with_session-IsOwned, attached-IsOwned, begun-IsOwned, destroy-IsReleased,
}

-- An exception, or an open session; either way the destructor releases all.
abbrev pub IsClean : Handles → Setup × Result ConnectError (Unit {0}) → Type 0
IsClean before reply = IsReleased before 0 (destroy reply.0)

branch-Holds {ℓ} :
    (Q : Setup × Result ConnectError (Unit {0}) → Type ℓ) (b : Bool) (s t : Setup)
    (e : ConnectError) (next : Action Setup ConnectError (Unit {0}))
    → (b ≡ true → Q (next t))
    → (b ≡ false → Q (s, throw e))
    → Q (and_then (if b then (t, ok (tt {0})) else (s, throw e)) (λ _. next))
branch-Holds Q true s t e next up down = up refl
branch-Holds Q false s t e next up down = down refl

module _ (succeeds : OciCall → Bool) where
  pub checked-Holds {ℓ} :
      (Q : Setup × Result ConnectError (Unit {0}) → Type ℓ) (call : OciCall)
      (change : Setup → Setup) (s : Setup) (next : Action Setup ConnectError (Unit {0}))
      → (succeeds call ≡ true → Q (next (change s)))
      → (succeeds call ≡ false → Q (s, throw (oci_error call)))
      → Q (and_then (checked succeeds call change s) (λ _. next))
  unfolding checked
  checked-Holds Q call change s next up down =
      branch-Holds Q (succeeds call) s (change s) (oci_error call) next up down

  -- A call is clean if it keeps what is owned and what follows is clean.
  checked-IsClean :
      (before : Handles) (call : OciCall) (change : Setup → Setup) (s : Setup)
      (next : Action Setup ConnectError (Unit {0}))
      → IsOwned before 0 s
      → (IsOwned before 0 s → IsOwned before 0 (change s))
      → (IsOwned before 0 (change s) → IsClean before (next (change s)))
      → IsClean before (and_then (checked succeeds call change s) (λ _. next))
  checked-IsClean before call change s next h keep later =
      checked-Holds (IsClean before) call change s next (λ up. later (keep h))
        (λ down. destroy-IsReleased before 0 s h)

  nls_setup : Action Setup ConnectError (Unit {0})
  nls_setup = do
    checked succeeds alloc_statement with_statement
    checked succeeds prepare_nls unchanged
    checked succeeds execute_nls unchanged
    finish_connection succeeds

  finished-IsOwned :
      (before : Handles) (s : Setup)
      → IsOwned before 0 s
      → IsOwned before 0 (finish_connection succeeds (with_statement s)).0
  finished-IsOwned before s h = record {
    errors = h.errors;
    services = h.services;
    servers = h.servers;
    sessions = h.sessions;
    statements = let e = h.statements in omega arith;
    no_statement = h.no_statement;
    attached = h.attached;
    begun = h.begun;
  }

  nls_setup-IsClean :
      (before : Handles) (s : Setup)
      → succeeds prepare_nls ≡ true
      → succeeds execute_nls ≡ true
      → IsOwned before 0 s
      → IsClean before (nls_setup s)
  unfolding nls_setup
  nls_setup-IsClean before s prepared executed h =
      checked-Holds (IsClean before) alloc_statement with_statement s _
        (λ _.
          checked-Holds (IsClean before) prepare_nls unchanged (with_statement s) _
            (λ _.
              checked-Holds (IsClean before) execute_nls unchanged (with_statement s) _
                (λ _. destroy-IsReleased before 0 _ (finished-IsOwned before s h))
                (λ down. absurd cc))
            (λ down. absurd cc))
        (λ down. destroy-IsReleased before 0 s h)

  open_session-IsClean :
      (before : Handles) (c : Credentials)
      → succeeds prepare_nls ≡ true
      → succeeds execute_nls ≡ true
      → IsClean before (open_session succeeds c (new_setup before))
  unfolding open_session nls_setup
  open_session-IsClean before c prepared executed =
      let next = checked-IsClean before in
      next alloc_error _ _ _ (new_setup-IsOwned before) (with_error-IsOwned before _ refl) (λ h1.
        next alloc_server _ _ _ h1 (with_server-IsOwned before _ refl) (λ h2.
          next alloc_service _ _ _ h2 (with_service-IsOwned before _ refl) (λ h3.
            next (attach c.db) _ _ _ h3 (attached-IsOwned before _ refl) (λ h4.
              next set_server _ _ _ h4 (λ h. h)
                (λ h5. next alloc_session _ _ _ h5 (with_session-IsOwned before _ refl) (λ h6.
                  next (set_username c.user) _ _ _ h6 (λ h. h)
                    (λ h7.
                      next (set_password c.password) _ _ _ h7 (λ h. h)
                        (λ h8. next begin_session _ _ _ h8 (begun-IsOwned before _ refl) (λ h9.
                          next set_session _ _ _ h9 (λ h. h)
                            (λ h10. nls_setup-IsClean before _ prepared executed h10))))))))))

  -- Where the two calls of the NLS setup succeed, `CreateConnection` leaks nothing: whichever other call
  -- fails, and also where the string is refused or the session opens, the destructor of the context then
  -- leaves no handle more than there was before, no attached server and no open session.
  pub create_connection-IsClean :
      (before : Handles) (connection_string : Text)
      → succeeds prepare_nls ≡ true
      → succeeds execute_nls ≡ true
      → IsClean before (create_connection succeeds connection_string (new_setup before))
  unfolding create_connection
  create_connection-IsClean before connection_string prepared executed =
      parsed (parse_connection_string connection_string)
    where
      parsed :
          (r : Result ConnectionError Credentials)
          → IsClean before (elim r [
            | throw problem ↦ (new_setup before, throw invalid_string)
            | ok c ↦ open_session succeeds c (new_setup before)
          ])
      parsed (throw problem) = destroy-IsReleased before 0 _ (new_setup-IsOwned before)
      parsed (ok c) = open_session-IsClean before c prepared executed
