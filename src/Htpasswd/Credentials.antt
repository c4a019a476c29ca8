-- ===== src/Htpasswd/Credentials.antt =====
-- enterprise/auth: who is authenticated, stated on the lines of the file.
use image_factory.Prelude.{
  ℕ, ◌+◌, String, ◌≡◌, refl, subst, Bool, ◌&&◌, ◌||◌, Option, none, some, List, [], ◌∷◌, ◌++◌,
  arith, eq_iff, ◌==◌, any, ◌>>=◌, ok-injective, >>=-eq-ok, unless-eq-ok, Result, ok, err,
}
use image_factory.Htpasswd.{
  Users, add_hash, lookup, entry_of, add_entry, load_lines, load_htpasswd, matches_any,
  verify_credentials, LoadError, unreadable,
}

-- The entries of lines without errors.
abbrev cons_entry :
    Result LoadError (Option (String × String)) → List (String × String) → List (String × String)
cons_entry (err e) entries = entries
cons_entry (ok none) entries = entries
cons_entry (ok (some entry)) entries = entry ∷ entries

unfoldable pub entries_of : ℕ → List String → List (String × String)
entries_of number [] = []
entries_of number (text ∷ texts) = cons_entry (entry_of number text) (entries_of (number + 1) texts)

module _ (matches : String → String → Bool) (username password : String) where
  -- An entry that lets the user in.
  abbrev pub admits : String × String → Bool
  admits entry = entry.0 == username && matches entry.1 password

  any-append : (f : String → Bool) (xs ys : List String) → any f (xs ++ ys) ≡ (any f xs || any f ys)
  any-append f [] ys = refl
  any-append f (x ∷ xs) ys = ground (arith, any-append f xs ys)

  verify-add_hash :
      (name hash : String) (users : Users)
      → matches_any matches password (lookup username (add_hash name hash users))
        ≡ (matches_any matches password (lookup username users) || admits (name, hash))
  unfolding lookup add_hash
  verify-add_hash name hash [] = ground (arith)
  verify-add_hash name hash ((n, hashes) ∷ users) = ground (
    arith,
    verify-add_hash name hash users,
    any-append (λ h. matches h password) hashes (hash ∷ []),
    eq_iff n name,
    eq_iff n username,
    eq_iff name username,
  )

  load_lines-admits :
      (number : ℕ) (texts : List String) (users : Users) {out : Users}
      → load_lines number texts users ≡ ok out
      → matches_any matches password (lookup username out) ≡ (
          matches_any matches password (lookup username users)
          || any admits (entries_of number texts))
  unfolding load_lines entries_of
  load_lines-admits number [] users h = ground (arith, ok-injective h)
  load_lines-admits number (text ∷ texts) users {out} h =
      by_entry (entry_of number text) (λ us. load_lines-admits (number + 1) texts us {out = out}) h
    where
      by_entry :
          (entry : Result LoadError (Option (String × String)))
          → ((us : Users)
              → load_lines (number + 1) texts us ≡ ok out
              → matches_any matches password (lookup username out) ≡ (
                  matches_any matches password (lookup username us)
                  || any admits (entries_of (number + 1) texts)))
          → (entry >>= λ e. load_lines (number + 1) texts (add_entry e users)) ≡ ok out
          → matches_any matches password (lookup username out) ≡ (
              matches_any matches password (lookup username users)
              || any admits (cons_entry entry (entries_of (number + 1) texts)))
      by_entry (err e) ih k = cc
      by_entry (ok none) ih k = ih users k
      by_entry (ok (some (name, hash))) ih k =
          ground (arith, ih (add_hash name hash users) k, verify-add_hash name hash users)

  -- With a file that loads, a user is let in exactly when one of its lines has the user's name and a
  -- hash that matches the password.
  pub verify_credentials-admits :
      (texts : List String) (fails : Bool) {out : Users}
      → load_htpasswd texts fails ≡ ok out
      → verify_credentials matches (some out) username password ≡ any admits (entries_of 1 texts)
  unfolding load_htpasswd verify_credentials lookup
  verify_credentials-admits texts fails {out} h =
      let (users, loads, ends) = >>=-eq-ok (load_lines 1 texts []) _ h in
      let (test, same) = unless-eq-ok fails unreadable _ ends in
      subst
        (λ u. matches_any matches password (lookup username u) ≡ any admits (entries_of 1 texts))
        (ok-injective same) (load_lines-admits 1 texts [] {out = users} loads)
