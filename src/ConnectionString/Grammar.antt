-- ===== src/ConnectionString/Grammar.antt =====
-- The texts that `ParseOracleConnectionString` of src/oracle_connection_manager.cpp accepts.
use duckdb_oracle.Base.{
  index, Option-cases, inl, inr, sym, ◌↔◌, ℕ, suc, ◌+◌, ◌-◌, ◌<◌, ◌≡◌, refl, sym, ap, ◌∙◌, ◌≢◌, ◌↔◌,
  false, [], ◌∷◌, ◌++◌, none, some, arith, Text, has, index, find, length, drop, substr,
  substr_from, ok, length-append, take-append_self, drop-append_self,
}
use duckdb_oracle.Base.Search.{index-append, index_free, index-none, index-Hit, drop-add, index-Hit}
use duckdb_oracle.ConnectionString.{Credentials, split_at, search_start, parse_connection_string}

-- user/password@db: the user has no '/', the password no '@', and none of the three is empty.
pub record Spells (s : Text) (c : Credentials) : Type 0 where
  pub splits : s ≡ c.user ++ b'/' ∷ (c.password ++ b'@' ∷ c.db)
  pub user_free : has b'/' c.user ≡ false
  pub password_free : has b'@' c.password ≡ false
  pub user_ne_nil : c.user ≢ []
  pub password_ne_nil : c.password ≢ []
  pub db_ne_nil : c.db ≢ []

ne-nil-length : (s : Text) → s ≢ [] → 0 < length s
ne-nil-length [] h = absurd (h refl)
ne-nil-length (c ∷ s) h = omega arith

length-ne-nil : (s : Text) → 0 < length s → s ≢ []
length-ne-nil s h e = omega (arith, ap length e)

-- The searches and cuts on a text of that form.
module _ (u p d : Text) where
  abbrev whole : Text
  whole = u ++ b'/' ∷ (p ++ b'@' ∷ d)

  find_slash : has b'/' u ≡ false → find whole b'/' 0 ≡ some (length u)
  find_slash h = rw (index-append b'/' u _ h) (ground arith)

  find_at : has b'@' p ≡ false → find whole b'@' (length u) ≡ some (length u + suc (length p))
  find_at h = rw drop-append_self (rw (index-append b'@' p d h) refl)

  length-whole : length whole ≡ length u + length p + length d + 2
  length-whole = omega (arith, length-append u (b'/' ∷ (p ++ b'@' ∷ d)), length-append p (b'@' ∷ d))

  drop_slash : drop (length u + 1) whole ≡ p ++ b'@' ∷ d
  drop_slash = drop-add (length u) 1 whole ∙ ap (drop 1) (drop-append_self u _)

  cut_user : substr whole 0 (length u) ≡ u
  cut_user = take-append_self u _

  cut_password : substr whole (length u + 1) (length u + suc (length p) - length u - 1) ≡ p
  cut_password =
      let e : length u + suc (length p) - length u - 1 ≡ length p = omega arith in
      rw (e, drop_slash) (take-append_self p _)

  cut_db : substr_from whole (length u + suc (length p) + 1) ≡ d
  cut_db =
      let e : length u + suc (length p) + 1 ≡ length u + 1 + (length p + 1) = omega arith in
      rw
        (
          e,
          drop-add (length u + 1) (length p + 1) whole,
          drop_slash,
          drop-add (length p) 1,
          drop-append_self p (b'@' ∷ d),
        )
        refl

  parse_whole :
      has b'/' u ≡ false
      → has b'@' p ≡ false
      → parse_connection_string whole
        ≡ split_at whole (some (length u)) (some (length u + suc (length p)))
  unfolding parse_connection_string
  parse_whole hu hp =
      ap (λ o. split_at whole o (find whole b'@' (search_start o))) (find_slash hu)
      ∙ ap (split_at whole (some (length u))) (find_at hp)

pub parse_no_slash :
    (s : Text) (c : Credentials) → index b'/' s ≡ none → parse_connection_string s ≢ ok c
unfolding parse_connection_string split_at
parse_no_slash s c h e = cc (rw (h, split_at) at e)

parse_no_at :
    (u t : Text) (c : Credentials)
    → has b'/' u ≡ false
    → has b'@' t ≡ false
    → parse_connection_string (u ++ b'/' ∷ t) ≢ ok c
unfolding parse_connection_string split_at
parse_no_at u t c hu ht e =
    let s = u ++ b'/' ∷ t in
    let slash : find s b'/' 0 ≡ some (length u) = rw (index-append b'/' u t hu) (ground arith) in
    let no_at : find s b'@' (length u) ≡ none =
      rw drop-append_self (rw (index_free b'@' t ht) refl) in
    let refused =
      ap (λ o. split_at s o (find s b'@' (search_start o))) slash
      ∙ ap (split_at s (some (length u))) no_at in
    cc refused

-- The text user/password@db is read as those three.
pub parse_complete : (s : Text) (c : Credentials) → Spells s c → parse_connection_string s ≡ ok c
unfolding split_at
parse_complete s c h =
    let u = c.user in
    let p = c.password in
    let d = c.db in
    rw (h.splits, parse_whole u p d h.user_free h.password_free)
      (ground (
        arith,
        cut_user u p d,
        cut_password u p d,
        cut_db u p d,
        length-whole u p d,
        ne-nil-length u h.user_ne_nil,
        ne-nil-length p h.password_ne_nil,
        ne-nil-length d h.db_ne_nil,
      ))

-- The parts of an accepted text, with the tests that it passed.
split_at_ok :
    (s : Text) (a b : ℕ) (c : Credentials)
    → split_at s (some a) (some b) ≡ ok c
    → (0 < a)
      × (a + 1 < b)
      × (b ≢ length s - 1)
      × (c ≡ record {
        user = substr s 0 a;
        password = substr s (a + 1) (b - a - 1);
        db = substr_from s (b + 1);
      })
unfolding split_at
split_at_ok s a b c e = ground arith

whole_sound :
    (u p d : Text) (c : Credentials)
    → has b'/' u ≡ false
    → has b'@' p ≡ false
    → parse_connection_string (whole u p d) ≡ ok c
    → Spells (whole u p d) c
whole_sound u p d c hu hp e =
    let (pos_a, room, not_last, parts) =
      split_at_ok (whole u p d) _ _ c (sym (parse_whole u p d hu hp) ∙ e) in
    let user_is : c.user ≡ u = ap (λ (r : Credentials). r.user) parts ∙ cut_user u p d in
    let password_is : c.password ≡ p =
      ap (λ (r : Credentials). r.password) parts ∙ cut_password u p d in
    let db_is : c.db ≡ d = ap (λ (r : Credentials). r.db) parts ∙ cut_db u p d in
    record {
      splits = rw (user_is, password_is, db_is);
      user_free = rw user_is hu;
      password_free = rw password_is hp;
      user_ne_nil = rw user_is (length-ne-nil u pos_a);
      password_ne_nil = rw password_is (length-ne-nil p (omega arith));
      db_ne_nil = rw db_is (length-ne-nil d (omega (arith, length-whole u p d)));
    }

after_slash :
    (u t : Text) (c : Credentials)
    → has b'/' u ≡ false
    → parse_connection_string (u ++ b'/' ∷ t) ≡ ok c
    → Spells (u ++ b'/' ∷ t) c
after_slash u t c hu e = elim (Option-cases (index b'@' t)) [
  | inl gone ↦ absurd (parse_no_at u t c hu (index-none b'@' t gone) e)
  | inr (j, found) ↦
      let h = index-Hit b'@' t j found in
      rw h.splits (whole_sound u h.before h.after c hu h.free (rw h.splits at e))
]

parse_sound : (s : Text) (c : Credentials) → parse_connection_string s ≡ ok c → Spells s c
parse_sound s c e = elim (Option-cases (index b'/' s)) [
  | inl gone ↦ absurd (parse_no_slash s c gone e)
  | inr (k, found) ↦
      let h = index-Hit b'/' s k found in
      rw h.splits (after_slash h.before h.after c h.free (rw h.splits at e))
]

pub parse_iff_Spells :
    (s : Text) (c : Credentials) → (parse_connection_string s ≡ ok c) ↔ Spells s c
parse_iff_Spells s c = (parse_sound s c, parse_complete s c)
