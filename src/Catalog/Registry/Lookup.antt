-- ===== src/Catalog/Registry/Lookup.antt =====
-- What the lookups of src/storage/oracle_catalog.cpp find.
use duckdb_oracle.Base.{
  if_false, if_true, if-Holds, ℕ, suc, ◌≡◌, inl, inr, refl, sym, ap, ◌∙◌, subst, Bool, true, false,
  Option, none, some, List, [], ◌∷◌, if◌then◌else◌, Bool-cases, Text, text_eq, text_eq_iff, empty,
}
use duckdb_oracle.Duckdb.{Strings}
use duckdb_oracle.Catalog.Registry.{
  Registry, new_registry, find_alias, erase_alias, clear_all_caches, register, found_alias,
  lookup_by_alias,
}

-- What is called, in its order.
pub data Event : Type 0 where
  registers : ℕ → Text → Event
  looks_up : Text → Event
  clears_all : Event

-- A state that is found while it is alive.
abbrev pub if_alive : (ℕ → Bool) → Option ℕ → Option ℕ
if_alive alive none = none
if_alive alive (some id) = if alive id then some id else none

-- What is alive later is alive now.
if_alive_twice :
    (now later : ℕ → Bool) (found : Option ℕ)
    → ((id : ℕ) → later id ≡ true → now id ≡ true)
    → if_alive later found ≡ if_alive later (if_alive now found)
if_alive_twice now later none stays = refl
if_alive_twice now later (some id) stays = elim (Bool-cases (later id)) [
  | inl on ↦ rw (stays id on) refl
  | inr off ↦ elim (Bool-cases (now id)) [
    | inl alive ↦ rw alive refl
    | inr dead ↦ rw (off, dead) refl
  ]
]

if_alive_later :
    (now later : ℕ → Bool) (a b : Option ℕ)
    → ((id : ℕ) → later id ≡ true → now id ≡ true)
    → if_alive now a ≡ if_alive now b
    → if_alive later a ≡ if_alive later b
if_alive_later now later a b stays e =
    if_alive_twice now later a stays
    ∙ ap (if_alive later) e
    ∙ sym (if_alive_twice now later b stays)

find-erase :
    (aliases : List (Text × ℕ)) (key : Text) → find_alias (erase_alias aliases key) key ≡ none
find-erase [] key = refl
find-erase ((name, id) ∷ aliases) key = elim (Bool-cases (text_eq name key)) [
  | inl same ↦ rw same (find-erase aliases key)
  | inr other ↦ rw (other, other) (find-erase aliases key)
]

find-erase_other :
    (aliases : List (Text × ℕ)) (key other : Text)
    → text_eq key other ≡ false
    → find_alias (erase_alias aliases key) other ≡ find_alias aliases other
find-erase_other [] key other h = refl
find-erase_other ((name, id) ∷ aliases) key other h = elim (Bool-cases (text_eq name key)) [
  | inl same ↦
      let differs : text_eq name other ≡ false =
        subst (λ n. text_eq n other ≡ false) (sym ((text_eq_iff name key).0 same)) h in
      rw (same, differs) (find-erase_other aliases key other h)
  | inr miss ↦ rw (miss, find-erase_other aliases key other h) refl
]

abbrev pub set_name : (Text → Option ℕ) → Text → ℕ → Text → Option ℕ
set_name names key id other = if text_eq key other then some id else names other

-- `alive t` is which states are alive when event `t` happens.
module _ (str : Strings) (alive : ℕ → ℕ → Bool) where
  -- The replies to the lookups.
  pub lookups : ℕ → List Event → Registry → List (Option ℕ)
  lookups t [] r = []
  lookups t (registers id alias ∷ events) r = lookups (suc t) events (register str id alias r)
  lookups t (clears_all ∷ events) r = lookups (suc t) events (clear_all_caches (alive t) r)
  lookups t (looks_up alias ∷ events) r =
      let (r', reply) = lookup_by_alias str (alive t) alias r in reply ∷ lookups (suc t) events r'

  -- The replies from what was registered last under the alias, in any case; nothing is erased.
  pub expected : ℕ → List Event → (Text → Option ℕ) → List (Option ℕ)
  expected t [] names = []
  expected t (registers id alias ∷ events) names =
      expected (suc t) events (if empty alias then names else set_name names (str.lower alias) id)
  expected t (clears_all ∷ events) names = expected (suc t) events names
  expected t (looks_up alias ∷ events) names =
      if_alive (alive t) (names (str.lower alias)) ∷ expected (suc t) events names

  abbrev Agrees : ℕ → Registry → (Text → Option ℕ) → Type 0
  Agrees t r names =
      (key : Text) → if_alive (alive t) (find_alias r.aliases key) ≡ if_alive (alive t) (names key)

  register-Agrees :
      (t id : ℕ) (alias : Text) (r : Registry) (names : Text → Option ℕ)
      → Agrees t r names
      → Agrees t
          (register str id alias r)
          (if empty alias then names else set_name names (str.lower alias) id)
  unfolding register
  register-Agrees t id [] r names h key = h key
  register-Agrees t id (c ∷ alias) r names h key =
      elim (Bool-cases (text_eq (str.lower (c ∷ alias)) key)) [
        | inl same ↦ rw same refl
        | inr other ↦ rw other (h key)
      ]

  erased-Agrees :
      (t : ℕ) (key : Text) (r : Registry) (names : Text → Option ℕ)
      → if_alive (alive t) (names key) ≡ none
      → Agrees t r names
      → (other : Text)
      → if_alive (alive t) (find_alias (erase_alias r.aliases key) other)
        ≡ if_alive (alive t) (names other)
  erased-Agrees t key r names dead h other = elim (Bool-cases (text_eq key other)) [
    | inl same ↦
        subst
          (λ k.
            if_alive (alive t) (find_alias (erase_alias r.aliases key) k)
            ≡ if_alive (alive t) (names k))
          ((text_eq_iff key other).0 same)
          (ap (if_alive (alive t)) (find-erase r.aliases key) ∙ sym dead)
    | inr differs ↦ ap (if_alive (alive t)) (find-erase_other r.aliases key other differs) ∙ h other
  ]

  cleared-Agrees :
      (t : ℕ) (r : Registry) (names : Text → Option ℕ)
      → Agrees (suc t) r names
      → Agrees (suc t) (clear_all_caches (alive t) r) names
  unfolding clear_all_caches
  cleared-Agrees t r names h = h

  found-Agrees :
      (t : ℕ) (key : Text) (r : Registry) (names : Text → Option ℕ) (found : Option ℕ)
      → find_alias r.aliases key ≡ found
      → Agrees t r names
      → Agrees t (found_alias str (alive t) key r found).0 names
        × ((found_alias str (alive t) key r found).1 ≡ if_alive (alive t) (names key))
  unfolding found_alias
  found-Agrees t key r names none e h = (h, ap (if_alive (alive t)) (sym e) ∙ h key)
  found-Agrees t key r names (some id) e h =
      if-Holds
        (λ (out : Registry × Option ℕ).
          Agrees t out.0 names × (out.1 ≡ if_alive (alive t) (names key)))
        (alive t id) (λ on. (h, sym (if_true _ _ on) ∙ ap (if_alive (alive t)) (sym e) ∙ h key))
        (λ off.
          let dead : if_alive (alive t) (names key) ≡ none =
            sym (h key) ∙ ap (if_alive (alive t)) e ∙ if_false _ _ off in
          (λ other. erased-Agrees t key r names dead h other, sym dead))

  found-lookups :
      (t : ℕ) (alias : Text) (r : Registry) (names : Text → Option ℕ)
      → Agrees t r names
      → Agrees t (lookup_by_alias str (alive t) alias r).0 names
        × ((lookup_by_alias str (alive t) alias r).1 ≡ if_alive (alive t) (names (str.lower alias)))
  unfolding lookup_by_alias
  found-lookups t alias r names h =
      found-Agrees t (str.lower alias) r names (find_alias r.aliases (str.lower alias)) refl h

  later-Agrees :
      (t : ℕ) (r : Registry) (names : Text → Option ℕ)
      → ((s id : ℕ) → alive (suc s) id ≡ true → alive s id ≡ true)
      → Agrees t r names
      → Agrees (suc t) r names
  later-Agrees t r names stays h key =
      if_alive_later (alive t) (alive (suc t)) (find_alias r.aliases key) (names key) (stays t)
        (h key)

  lookups-Agrees :
      (t : ℕ) (events : List Event) (r : Registry) (names : Text → Option ℕ)
      → ((s id : ℕ) → alive (suc s) id ≡ true → alive s id ≡ true)
      → Agrees t r names
      → lookups t events r ≡ expected t events names
  unfolding lookups expected
  lookups-Agrees t [] r names stays h = refl
  lookups-Agrees t (registers id alias ∷ events) r names stays h =
      lookups-Agrees (suc t) events _ _ stays
        (later-Agrees t (register str id alias r) _ stays (register-Agrees t id alias r names h))
  lookups-Agrees t (clears_all ∷ events) r names stays h =
      lookups-Agrees (suc t) events _ names stays
        (cleared-Agrees t r names (later-Agrees t r names stays h))
  lookups-Agrees t (looks_up alias ∷ events) r names stays h =
      let (kept, reply) = found-lookups t alias r names h in
      ap (λ found. found ∷ lookups (suc t) events (lookup_by_alias str (alive t) alias r).0) reply
      ∙ ap (◌∷◌ (if_alive (alive t) (names (str.lower alias)))) (
          lookups-Agrees (suc t) events _ names stays
            (later-Agrees t (lookup_by_alias str (alive t) alias r).0 names stays kept))

  -- Where a state that is dead stays dead, the lookups of an alias, in any case, in any series of
  -- registrations, lookups and clearings find the state that was registered last under that alias, if
  -- it is still alive, and else nothing; that entries of dead states are erased on the way changes no
  -- reply.
  pub lookups-expected :
      (events : List Event)
      → ((s id : ℕ) → alive (suc s) id ≡ true → alive s id ≡ true)
      → lookups 0 events new_registry ≡ expected 0 events (λ key. none)
  lookups-expected events stays =
      lookups-Agrees 0 events new_registry (λ key. none) stays (λ key. refl)
