-- ===== src/Catalog/Version/Features.antt =====
-- What `GetVersionInfo` of src/include/oracle_catalog_state.hpp says of the database.
use duckdb_oracle.Base.{
  Bool-cases, inl, inr, if_true, Result, ◌≡◌, true, ◌&&◌, ◌||◌, List, Option, some, none, ok, Text,
  if◌then◌else◌, empty, ℤ, pos, negsuc, is_gt, refl, arith, if-Holds, sym, subst, throw, ap, ◌∙◌,
}
use duckdb_oracle.Duckdb.{Strings}
use duckdb_oracle.Settings.{OracleSettings}
use duckdb_oracle.Base.Action.{Action, and_then, handled, catch_all, returns, reads, changes}
use duckdb_oracle.Catalog.State.{
  cannot_query, CatalogState, CatalogError, Database, OracleVersionInfo, ask, unknown_version,
  ensure_connection, connect,
}
use duckdb_oracle.Catalog.Version.{
  VersionStep, component_query, with_parts, instance_query, is_int, has_cell, with_features,
  parse_version, get_version_info, detect_oracle_version, set_version, ask_version,
}

-- Each feature stands on the one before it.
pub record IsLadder (info : OracleVersionInfo) : Type 0 where
  pub serialize_needs_vector : info.supports_vector_serialize ≡ true → info.supports_vector ≡ true
  pub vector_needs_json : info.supports_vector ≡ true → info.supports_json_type ≡ true

pub unknown_version-IsLadder : IsLadder unknown_version
unknown_version-IsLadder = record { serialize_needs_vector = λ e. e; vector_needs_json = λ e. e }

with_features-IsLadder : (info : OracleVersionInfo) → IsLadder (with_features info)
unfolding with_features
with_features-IsLadder info = record {
  serialize_needs_vector = later info.major;
  vector_needs_json = earlier info.major;
}
  where
    later :
        (major : ℤ)
        → (is_gt major 23 || (is_int major 23 && is_gt info.minor 3)) ≡ true
        → is_gt major 22 ≡ true
    later (pos n) e = ground arith
    later (negsuc n) e = e

    earlier : (major : ℤ) → is_gt major 22 ≡ true → is_gt major 20 ≡ true
    earlier (pos n) e = ground arith
    earlier (negsuc n) e = e

pub parse_version-IsLadder :
    (str : Strings) (stoi : Text → Option ℤ) (version_str : Text) (info : OracleVersionInfo)
    → IsLadder info
    → IsLadder (parse_version str stoi version_str info)
unfolding parse_version
parse_version-IsLadder str stoi version_str info h =
    if-Holds IsLadder (empty version_str) (λ _. h)
      (λ _. with_features-IsLadder (with_parts str stoi (str.split version_str b'.') info))

abbrev the_reply :
    Option (List (List Text)) → CatalogState → CatalogState × Result CatalogError (List (List Text))
the_reply reply s = elim reply [ none ↦ (s, throw cannot_query) | some rows ↦ (s, ok rows) ]

reply-state : (reply : Option (List (List Text))) (s : CatalogState) → (the_reply reply s).0 ≡ s
reply-state none s = refl
reply-state (some rows) s = refl

-- Steps that leave the state are one that does.
and_then-state {ℓ κ μ ν} :
    {S : Type ℓ} {E : Type κ} {A : Type μ} {B : Type ν} (s : S) (done : S × Result E A)
    (next : A → Action S E B)
    → done.0 ≡ s
    → ((value : A) → (next value s).0 ≡ s)
    → (and_then done next).0 ≡ s
and_then-state s (t, throw problem) next e h = e
and_then-state s (t, ok value) next e h = ap (λ u. (next value u).0) e ∙ h value

module _ (str : Strings) (quote : Text → Text) (settings : OracleSettings) (db : Database)
    (stoi : Text → Option ℤ) where
  ask-state : (query : Text) (s : CatalogState) → (ask str quote settings db query s).0 ≡ s
  unfolding ask
  ask-state query s = reply-state (db.answer query) s

  ask_version-state : (s : CatalogState) → (ask_version str quote settings db stoi s).0 ≡ s
  unfolding ask_version
  ask_version-state s =
      and_then-state s (ask str quote settings db instance_query s) _ (ask-state instance_query s)
        (λ rows.
          if-Holds (λ (next : VersionStep str quote settings db stoi Text). (next s).0 ≡ s)
            (has_cell rows) (λ _. refl)
            (λ _.
              and_then-state s (ask str quote settings db component_query s) _
                (ask-state component_query s) (λ others. refl)))

  -- The action returns, and leaves features that stand on each other.
  abbrev Settled : CatalogState × Result CatalogError (Unit {0}) → Type 0
  Settled reply = (u : CatalogState) × (reply ≡ (u, ok tt)) × IsLadder u.version_info

  settle :
      (reply : CatalogState × Result CatalogError Text) (s : CatalogState)
      → reply.0 ≡ s
      → IsLadder s.version_info
      → Settled (
          handled
            (and_then reply (λ version_str.
              changes (λ u. record u {
                version_info = parse_version str stoi version_str u.version_info;
              })))
            (returns tt))
  settle (t, throw problem) s e h = (t, refl, subst (λ u. IsLadder u.version_info) (sym e) h)
  settle (t, ok version_str) s e h =
      let ladder = subst (λ u. IsLadder u.version_info) (sym e) h in
      (
        record t { version_info = parse_version str stoi version_str t.version_info },
        refl,
        parse_version-IsLadder str stoi version_str t.version_info ladder,
      )

  abbrev pub Detected : CatalogState × Result CatalogError (Unit {0}) → Type 0
  Detected reply =
      (u : CatalogState) × (reply ≡ (u, ok tt))
      × IsLadder u.version_info
      × (u.version_detected ≡ true)

  Settled-Detected :
      (reply : CatalogState × Result CatalogError (Unit {0}))
      → Settled reply
      → Detected (and_then reply (λ _. changes (λ t. record t { version_detected = true })))
  Settled-Detected reply (u, e, h) = (
    record u { version_detected = true },
    ap (λ r. and_then r (λ _. changes (λ t. record t { version_detected = true }))) e,
    h,
    refl,
  )

  -- Where there is a login, a session is there, whether it was held or not.
  ensure_connection-up :
      (s : CatalogState)
      → db.connects ≡ true
      → ensure_connection str quote settings db s ≡ (record s { connected = true }, ok tt)
  unfolding ensure_connection connect
  ensure_connection-up s up = elim (Bool-cases settings.connection_cache) [
    | inl cached ↦ elim (Bool-cases s.connected) [
      | inl on ↦ rw (cached, on) refl
      | inr off ↦ rw (cached, off, up) refl
    ]
    | inr fresh ↦ rw (fresh, up) refl
  ]

  pub detect_settles :
      (s : CatalogState)
      → db.connects ≡ true
      → IsLadder s.version_info
      → Detected (detect_oracle_version str quote settings db stoi s)
  unfolding detect_oracle_version set_version
  detect_settles s up ladder =
      let start : CatalogState = record s { connected = true } in
      if-Holds Detected s.version_detected (λ known. (s, refl, ladder, known))
        (λ unknown.
          subst
            (λ entered. Detected (
              and_then entered (λ _ t.
                and_then (catch_all (set_version str quote settings db stoi) (returns tt) t)
                  (λ _. changes (λ u. record u { version_detected = true })))))
            (sym (ensure_connection-up s up))
            (Settled-Detected _ (
              settle (ask_version str quote settings db stoi start) start (ask_version-state start)
                ladder)))

  pub get_again :
      (t : CatalogState)
      → t.version_detected ≡ true
      → get_version_info str quote settings db stoi t ≡ (t, ok t.version_info)
  unfolding get_version_info
  get_again t known =
      ap
        (λ b.
          and_then ((if b then returns tt else detect_oracle_version str quote settings db stoi) t)
            (λ _. reads (λ u. u.version_info)))
        known

  pub get_version_info-detect :
      (s t : CatalogState)
      → detect_oracle_version str quote settings db stoi s ≡ (t, ok tt)
      → get_version_info str quote settings db stoi s ≡ (t, ok t.version_info)
  unfolding get_version_info detect_oracle_version
  get_version_info-detect s t e =
      if-Holds
        (λ (next : VersionStep str quote settings db stoi (Unit {0})).
          and_then (next s) (λ _. reads (λ u. u.version_info)) ≡ (t, ok t.version_info))
        s.version_detected
        (λ known.
          ap (λ r. and_then r (λ _. reads (λ u. u.version_info))) (sym (if_true _ _ known) ∙ e))
        (λ unknown. ap (λ r. and_then r (λ _. reads (λ u. u.version_info))) e)
