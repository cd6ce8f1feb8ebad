-- ===== src/Oci.antt =====
-- `CreateConnection` and `~OracleContext` of src/oracle_connection_manager.cpp: the OCI handles that a
-- session takes and gives back.
-- Whether a call of OCI succeeds is an argument. The calls whose status the code drops change nothing
-- that is counted here.
pub mod Ownership
pub mod Release
pub mod Leak
mod Tests
use duckdb_oracle.Base.{◌+◌, ◌-◌, ℕ, Bool, true, false, ◌&&◌, if◌then◌else◌, ok, throw, Text}
use duckdb_oracle.Base.Action.{Action, ◌>>◌}
use duckdb_oracle.ConnectionString.{Credentials, parse_connection_string}

-- The calls whose failure throws, in their order.
pub data OciCall : Type 0 where
  alloc_error alloc_server alloc_service : OciCall
  attach : Text → OciCall
  set_server alloc_session : OciCall
  set_username set_password : Text → OciCall
  begin_session set_session alloc_statement prepare_nls execute_nls : OciCall

pub data ConnectError : Type 0 where
  invalid_string : ConnectError
  oci_error : OciCall → ConnectError

-- Which pointers of the context are set; the environment handle belongs to the manager.
pub record OracleContext : Type 0 where
  pub errhp : Bool
  pub svchp : Bool
  pub srvhp : Bool
  pub authp : Bool
  pub stmthp : Bool
  pub connected : Bool

abbrev pub new_context : OracleContext
new_context = record {
  errhp = false;
  svchp = false;
  srvhp = false;
  authp = false;
  stmthp = false;
  connected = false;
}

-- The handles that are allocated, of the whole process.
pub record Handles : Type 0 where
  pub errors : ℕ
  pub services : ℕ
  pub servers : ℕ
  pub sessions : ℕ
  pub statements : ℕ

-- The context under construction, and whether its server is attached and its session begun.
pub record Setup : Type 0 where
  pub ctx : OracleContext
  pub live : Handles
  pub attached : Bool
  pub begun : Bool

abbrev pub new_setup : Handles → Setup
new_setup live = record { ctx = new_context; live = live; attached = false; begun = false }

abbrev pub with_error : Setup → Setup
with_error s = record s {
  ctx = record s.ctx { errhp = true };
  live = record s.live { errors = s.live.errors + 1 };
}

abbrev pub with_server : Setup → Setup
with_server s = record s {
  ctx = record s.ctx { srvhp = true };
  live = record s.live { servers = s.live.servers + 1 };
}

abbrev pub with_service : Setup → Setup
with_service s = record s {
  ctx = record s.ctx { svchp = true };
  live = record s.live { services = s.live.services + 1 };
}

abbrev pub with_session : Setup → Setup
with_session s = record s {
  ctx = record s.ctx { authp = true };
  live = record s.live { sessions = s.live.sessions + 1 };
}

-- The statement of the NLS setup is a local of the code.
abbrev pub with_statement : Setup → Setup
with_statement s = record s { live = record s.live { statements = s.live.statements + 1 } }

abbrev pub free_statement : Setup → Setup
free_statement s = record s { live = record s.live { statements = s.live.statements - 1 } }

abbrev unchanged : Setup → Setup
unchanged s = s

module _ (succeeds : OciCall → Bool) where
  -- A call whose status `CheckOCIError` looks at.
  unfoldable pub checked : OciCall → (Setup → Setup) → Action Setup ConnectError (Unit {0})
  checked call change s = if succeeds call then (change s, ok tt) else (s, throw (oci_error call))

  abbrev finish_connection : Action Setup ConnectError (Unit {0})
  finish_connection s =
      (record (free_statement s) { ctx = record s.ctx { connected = true } }, ok tt)

  -- The calls once the string is parsed.
  unfoldable pub open_session : Credentials → Action Setup ConnectError (Unit {0})
  open_session c = do
    checked alloc_error with_error
    checked alloc_server with_server
    checked alloc_service with_service
    checked (attach c.db) (λ s. record s { attached = true })
    checked set_server unchanged
    checked alloc_session with_session
    checked (set_username c.user) unchanged
    checked (set_password c.password) unchanged
    checked begin_session (λ s. record s { begun = true })
    checked set_session unchanged
    checked alloc_statement with_statement
    checked prepare_nls unchanged
    checked execute_nls unchanged
    finish_connection

  -- `CreateConnection`
  unfoldable pub create_connection : Text → Action Setup ConnectError (Unit {0})
  unfolding open_session
  create_connection connection_string s = elim (parse_connection_string connection_string) [
    | throw problem ↦ (s, throw invalid_string)
    | ok c ↦ open_session c s
  ]

abbrev pub freed : Bool → ℕ → ℕ
freed held count = if held then count - 1 else count

-- The destructor. A session is ended through the service, session and error handles, and a server is
-- detached through the error handle.
unfoldable pub destroy : Setup → Setup
destroy s = record {
  ctx = record new_context { connected = s.ctx.connected };
  live = record {
    errors = freed s.ctx.errhp s.live.errors;
    services = freed s.ctx.svchp s.live.services;
    servers = freed s.ctx.srvhp s.live.servers;
    sessions = freed s.ctx.authp s.live.sessions;
    statements = freed s.ctx.stmthp s.live.statements;
  };
  attached = if s.ctx.srvhp && s.ctx.errhp then false else s.attached;
  begun = if s.ctx.svchp && s.ctx.authp && s.ctx.errhp then false else s.begun;
}
