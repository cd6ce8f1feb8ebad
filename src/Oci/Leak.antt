-- ===== src/Oci/Leak.antt =====
-- The statement of the NLS setup in src/oracle_connection_manager.cpp where its setup fails.
use duckdb_oracle.Base.{
  ◌≡◌, ◌≢◌, ◌⊎◌, inl, inr, Bool, true, false, ok, throw, Result, Text, refl, ap, ◌∙◌, subst, sym,
  arith,
}
use duckdb_oracle.Base.Action.{◌>>◌, Action, and_then}
use duckdb_oracle.ConnectionString.{Credentials, parse_connection_string}
use duckdb_oracle.Oci.{
  invalid_string, with_error, with_server, with_service, with_session, finish_connection, OciCall,
  alloc_error, alloc_server, alloc_service, attach, set_server, alloc_session, set_username,
  set_password, begin_session, set_session, alloc_statement, prepare_nls, execute_nls, ConnectError,
  oci_error, Handles, Setup, new_setup, with_statement, unchanged, checked, open_session,
  create_connection, destroy,
}
use duckdb_oracle.Oci.Ownership.{
  IsReleased, IsOwned, new_setup-IsOwned, with_error-IsOwned, with_server-IsOwned,
  with_service-IsOwned, with_session-IsOwned, attached-IsOwned, begun-IsOwned, destroy-IsReleased,
}
use duckdb_oracle.Oci.Release.{checked-Holds}

abbrev nls_call : OciCall → Bool
nls_call prepare_nls = true
nls_call execute_nls = true
nls_call _ = false

with_statement-IsOwned :
    (before : Handles) (s : Setup) → IsOwned before 0 s → IsOwned before 1 (with_statement s)
with_statement-IsOwned before s h = record {
  errors = h.errors;
  services = h.services;
  servers = h.servers;
  sessions = h.sessions;
  statements = let e = h.statements in omega arith;
  no_statement = h.no_statement;
  attached = h.attached;
  begun = h.begun;
}

-- The call throws, and one statement handle more than before is left.
abbrev pub Leaks : OciCall → Handles → Setup × Result ConnectError (Unit {0}) → Type 0
Leaks call before reply = IsReleased before 1 (destroy reply.0) × (reply.1 ≡ throw (oci_error call))

module _ (succeeds : OciCall → Bool) (call : OciCall) (before : Handles)
    (fails : succeeds call ≡ false)
    (others : (other : OciCall) → other ≢ call → succeeds other ≡ true) where
  -- Another call than the failing one passes.
  passes :
      (other : OciCall) (change : Setup → Setup) (s : Setup)
      (next : Action Setup ConnectError (Unit {0}))
      → other ≢ call
      → Leaks call before (next (change s))
      → Leaks call before (and_then (checked succeeds other change s) (λ _. next))
  passes other change s next is_other later =
      checked-Holds succeeds (Leaks call before) other change s next (λ _. later)
        (λ down. let up = others other is_other in absurd cc)

  stops :
      (change : Setup → Setup) (s : Setup) (next : Action Setup ConnectError (Unit {0}))
      → IsOwned before 1 s
      → Leaks call before (and_then (checked succeeds call change s) (λ _. next))
  stops change s next h =
      checked-Holds succeeds (Leaks call before) call change s next (λ up. absurd cc)
        (λ _. (destroy-IsReleased before 1 s h, refl))

  nls_setup-Leaks :
      (s : Setup)
      → IsOwned before 0 s
      → (call ≡ prepare_nls) ⊎ (call ≡ execute_nls)
      → Leaks call before (
          and_then
            (checked succeeds prepare_nls unchanged (with_statement s))
            (λ _. checked succeeds execute_nls unchanged >> finish_connection succeeds))
  nls_setup-Leaks s h (inl e) =
      subst
        (λ n. Leaks call before (
          and_then (checked succeeds n unchanged (with_statement s))
            (λ _. checked succeeds execute_nls unchanged >> finish_connection succeeds)))
        e
        (stops unchanged (with_statement s)
          (checked succeeds execute_nls unchanged >> finish_connection succeeds)
          (with_statement-IsOwned before s h))
  nls_setup-Leaks s h (inr e) =
      passes prepare_nls unchanged (with_statement s) _ (λ same. cc)
        (subst
          (λ n. Leaks call before (
            and_then (checked succeeds n unchanged (with_statement s))
              (λ _. finish_connection succeeds)))
          e
          (stops unchanged (with_statement s) (finish_connection succeeds)
            (with_statement-IsOwned before s h)))

  open_session-Leaks :
      (c : Credentials)
      → (call ≡ prepare_nls) ⊎ (call ≡ execute_nls)
      → Leaks call before (open_session succeeds c (new_setup before))
  unfolding open_session
  open_session-Leaks c nls = passes alloc_error _ _ _ (is_nls _ refl) (
      passes alloc_server _ _ _ (is_nls _ refl) (
        passes alloc_service _ _ _ (is_nls _ refl) (
          passes (attach c.db) _ _ _ (is_nls _ refl) (
            passes set_server _ _ _ (is_nls _ refl) (
              passes alloc_session _ _ _ (is_nls _ refl) (
                passes (set_username c.user) _ _ _ (is_nls _ refl) (
                  passes (set_password c.password) _ _ _ (is_nls _ refl) (
                    passes begin_session _ _ _ (is_nls _ refl) (
                      passes set_session _ _ _ (is_nls _ refl) (
                        passes alloc_statement _ _ _ (is_nls _ refl)
                          (nls_setup-Leaks _ full nls)))))))))))
    where
      ready : Setup
      ready =
          record (with_session
            (record (with_service (with_server (with_error (new_setup before)))) {
              attached = true;
            })) { begun = true }

      full : IsOwned before 0 ready
      full = begun-IsOwned before _ refl (
          with_session-IsOwned before _ refl (
            attached-IsOwned before _ refl (
              with_service-IsOwned before _ refl (
                with_server-IsOwned before _ refl
                  (with_error-IsOwned before _ refl (new_setup-IsOwned before))))))

      is_nls : (other : OciCall) → nls_call other ≡ false → other ≢ call
      is_nls other plain same = elim nls [
        | inl e ↦ let p = ap nls_call (same ∙ e) in cc
        | inr e ↦ let p = ap nls_call (same ∙ e) in cc
      ]

create_connection-parsed :
    (succeeds : OciCall → Bool) (connection_string : Text) (c : Credentials) (s : Setup)
    → parse_connection_string connection_string ≡ ok c
    → create_connection succeeds connection_string s ≡ open_session succeeds c s
unfolding create_connection
create_connection-parsed succeeds connection_string c s e =
    ap
      (λ r. elim r [ throw problem ↦ (s, throw invalid_string) | ok d ↦ open_session succeeds d s ])
      e

-- A statement handle leaks where the NLS setup fails: if each call of `CreateConnection` succeeds but
-- one of the two that prepare and execute the NLS statement, the call throws, and after the destructor
-- of the context one statement handle more is allocated than before, and nothing else.
pub create_connection-Leaks :
    (succeeds : OciCall → Bool) (call : OciCall) (before : Handles) (connection_string : Text)
    (c : Credentials)
    → succeeds call ≡ false
    → ((other : OciCall) → other ≢ call → succeeds other ≡ true)
    → (call ≡ prepare_nls) ⊎ (call ≡ execute_nls)
    → parse_connection_string connection_string ≡ ok c
    → Leaks call before (create_connection succeeds connection_string (new_setup before))
create_connection-Leaks succeeds call before connection_string c fails others nls parsed =
    subst (Leaks call before)
      (sym (create_connection-parsed succeeds connection_string c (new_setup before) parsed))
      (open_session-Leaks succeeds call before fails others c nls)
