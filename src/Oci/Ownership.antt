-- ===== src/Oci/Ownership.antt =====
-- The pointers of an `OracleContext` of src/oracle_connection_manager.cpp, and the handles behind them.
use duckdb_oracle.Base.{◌&&◌, ◌≡◌, ℕ, ◌+◌, Bool, true, false, if◌then◌else◌, refl, sym, arith}
use duckdb_oracle.Oci.{
  with_error, with_server, with_service, with_session, freed, Handles, Setup, new_setup, destroy,
}

abbrev pub bit : Bool → ℕ
bit held = if held then 1 else 0

-- Nothing is held but what was held before, and `leaked` statement handles.
pub record IsReleased (before : Handles) (leaked : ℕ) (s : Setup) : Type 0 where
  pub errors : s.live.errors ≡ before.errors
  pub services : s.live.services ≡ before.services
  pub servers : s.live.servers ≡ before.servers
  pub sessions : s.live.sessions ≡ before.sessions
  pub statements : s.live.statements ≡ before.statements + leaked
  pub detached : s.attached ≡ false
  pub ended : s.begun ≡ false

-- Each pointer that is set is one handle; a server is attached, and a session begun, only under
-- handles that the destructor needs for them.
pub record IsOwned (before : Handles) (leaked : ℕ) (s : Setup) : Type 0 where
  pub errors : s.live.errors ≡ before.errors + bit s.ctx.errhp
  pub services : s.live.services ≡ before.services + bit s.ctx.svchp
  pub servers : s.live.servers ≡ before.servers + bit s.ctx.srvhp
  pub sessions : s.live.sessions ≡ before.sessions + bit s.ctx.authp
  pub statements : s.live.statements ≡ before.statements + leaked
  pub no_statement : s.ctx.stmthp ≡ false
  pub attached : s.attached ≡ true → (s.ctx.srvhp && s.ctx.errhp) ≡ true
  pub begun : s.begun ≡ true → (s.ctx.svchp && s.ctx.authp && s.ctx.errhp) ≡ true

freed-bit : (held : Bool) (count n : ℕ) → count ≡ n + bit held → freed held count ≡ n
freed-bit true count n e = omega arith
freed-bit false count n e = omega arith

cleared : (held flag : Bool) → (flag ≡ true → held ≡ true) → (if held then false else flag) ≡ false
cleared true flag h = refl
cleared false true h = sym (h refl)
cleared false false h = refl

pub destroy-IsReleased :
    (before : Handles) (leaked : ℕ) (s : Setup)
    → IsOwned before leaked s
    → IsReleased before leaked (destroy s)
unfolding destroy
destroy-IsReleased before leaked s h = record {
  errors = freed-bit s.ctx.errhp _ _ h.errors;
  services = freed-bit s.ctx.svchp _ _ h.services;
  servers = freed-bit s.ctx.srvhp _ _ h.servers;
  sessions = freed-bit s.ctx.authp _ _ h.sessions;
  statements = rw h.no_statement h.statements;
  detached = cleared (s.ctx.srvhp && s.ctx.errhp) s.attached h.attached;
  ended = cleared (s.ctx.svchp && s.ctx.authp && s.ctx.errhp) s.begun h.begun;
}

pub new_setup-IsOwned : (before : Handles) → IsOwned before 0 (new_setup before)
new_setup-IsOwned before = record {
  errors = omega arith;
  services = omega arith;
  servers = omega arith;
  sessions = omega arith;
  statements = omega arith;
  no_statement = refl;
  attached = λ e. e;
  begun = λ e. e;
}

pub with_error-IsOwned :
    (before : Handles) (s : Setup)
    → s.ctx.errhp ≡ false
    → IsOwned before 0 s
    → IsOwned before 0 (with_error s)
with_error-IsOwned before s fresh h = record {
  errors = ground (arith, fresh, h.errors);
  services = h.services;
  servers = h.servers;
  sessions = h.sessions;
  statements = h.statements;
  no_statement = h.no_statement;
  attached = λ e. ground (arith, h.attached e);
  begun = λ e. ground (arith, h.begun e);
}

pub with_server-IsOwned :
    (before : Handles) (s : Setup)
    → s.ctx.srvhp ≡ false
    → IsOwned before 0 s
    → IsOwned before 0 (with_server s)
with_server-IsOwned before s fresh h = record {
  errors = h.errors;
  services = h.services;
  servers = ground (arith, fresh, h.servers);
  sessions = h.sessions;
  statements = h.statements;
  no_statement = h.no_statement;
  attached = λ e. ground (arith, h.attached e);
  begun = λ e. h.begun e;
}

pub with_service-IsOwned :
    (before : Handles) (s : Setup)
    → s.ctx.svchp ≡ false
    → IsOwned before 0 s
    → IsOwned before 0 (with_service s)
with_service-IsOwned before s fresh h = record {
  errors = h.errors;
  services = ground (arith, fresh, h.services);
  servers = h.servers;
  sessions = h.sessions;
  statements = h.statements;
  no_statement = h.no_statement;
  attached = λ e. h.attached e;
  begun = λ e. ground (arith, h.begun e);
}

pub with_session-IsOwned :
    (before : Handles) (s : Setup)
    → s.ctx.authp ≡ false
    → IsOwned before 0 s
    → IsOwned before 0 (with_session s)
with_session-IsOwned before s fresh h = record {
  errors = h.errors;
  services = h.services;
  servers = h.servers;
  sessions = ground (arith, fresh, h.sessions);
  statements = h.statements;
  no_statement = h.no_statement;
  attached = λ e. h.attached e;
  begun = λ e. ground (arith, h.begun e);
}

pub attached-IsOwned :
    (before : Handles) (s : Setup)
    → (s.ctx.srvhp && s.ctx.errhp) ≡ true
    → IsOwned before 0 s
    → IsOwned before 0 (record s { attached = true })
attached-IsOwned before s held h = record {
  errors = h.errors;
  services = h.services;
  servers = h.servers;
  sessions = h.sessions;
  statements = h.statements;
  no_statement = h.no_statement;
  attached = λ e. held;
  begun = h.begun;
}

pub begun-IsOwned :
    (before : Handles) (s : Setup)
    → (s.ctx.svchp && s.ctx.authp && s.ctx.errhp) ≡ true
    → IsOwned before 0 s
    → IsOwned before 0 (record s { begun = true })
begun-IsOwned before s held h = record {
  errors = h.errors;
  services = h.services;
  servers = h.servers;
  sessions = h.sessions;
  statements = h.statements;
  no_statement = h.no_statement;
  attached = h.attached;
  begun = λ e. held;
}
