-- ===== src/Htpasswd.antt =====
-- enterprise/auth/config.go and enterprise/auth/auth.go: users with passwords, from the lines of an
-- htpasswd file. bcrypt and the scanner of lines are parameters.
pub mod Credentials
use image_factory.Prelude.{
  ℕ, ◌+◌, String, Bool, false, not, ◌&&◌, ◌||◌, Option, none, some, List, [], ◌∷◌, ◌++◌, ◌==◌,
  if◌then◌else◌, any, ◌>>=◌, Result, ok, err,
}
use image_factory.Strings.{has_prefix, cut, trim_space}

-- The hashes of each user, in the order of their lines.
abbrev pub Users : Type 0
Users = List (String × List String)

-- The errors of a line, by its number, and those of the file.
pub data LoadError : Type 0 where
  missing_separator : ℕ → LoadError
  empty_username : ℕ → LoadError
  unsupported_hash : ℕ → LoadError
  unreadable : LoadError

-- `append(users[username], hash)`
unfoldable pub add_hash : String → String → Users → Users
add_hash username hash [] = (username, hash ∷ []) ∷ []
add_hash username hash ((name, hashes) ∷ users) =
    let rest = add_hash username hash users in
    if name == username then (name, hashes ++ hash ∷ []) ∷ users else (name, hashes) ∷ rest

unfoldable pub lookup : String → Users → Option (List String)
lookup username [] = none
lookup username ((name, hashes) ∷ users) =
    let rest = lookup username users in if name == username then some hashes else rest

-- The checks of a line that has a separator.
unfoldable pub check_entry : ℕ → String × String → Result LoadError (Option (String × String))
check_entry number (username, hash) =
    if username == ""
    then err (empty_username number)
    else if not (has_prefix hash "$2y$")
        && not (has_prefix hash "$2a$")
        && not (has_prefix hash "$2b$")
    then err (unsupported_hash number)
    else ok (some (username, hash))

abbrev pub check_cut : ℕ → Option (String × String) → Result LoadError (Option (String × String))
check_cut number none = err (missing_separator number)
check_cut number (some (username, hash)) = check_entry number (trim_space username, trim_space hash)

-- What a line adds: a user with a hash, or nothing.
unfoldable pub entry_of : ℕ → String → Result LoadError (Option (String × String))
unfolding check_entry
entry_of number text =
    let line = trim_space text in
    if line == "" || has_prefix line "#" then ok none else check_cut number (cut line ":")

abbrev pub add_entry : Option (String × String) → Users → Users
add_entry none users = users
add_entry (some (username, hash)) users = add_hash username hash users

-- The loop, from a line number on.
unfoldable pub load_lines : ℕ → List String → Users → Result LoadError Users
unfolding entry_of add_hash
load_lines number [] users = ok users
load_lines number (text ∷ texts) users =
    entry_of number text >>= λ entry. load_lines (number + 1) texts (add_entry entry users)

-- `LoadHTPasswd`, of the lines that the scanner yields before it ends or fails.
unfoldable pub load_htpasswd : List String → Bool → Result LoadError Users
unfolding load_lines
load_htpasswd texts fails =
    load_lines 1 texts [] >>= λ users. if fails then err unreadable else ok users

-- `reload`: a file that does not load changes nothing.
unfoldable pub reload : Result LoadError Users → Option Users → Option Users
reload (ok users) loaded = some users
reload (err e) loaded = loaded

-- How a request goes on: refused, or handled with a username in its context.
pub data Verdict : Type 0 where
  no_credentials : Verdict
  invalid_credentials : Verdict
  handled : String → Verdict

-- `bcrypt.CompareHashAndPassword` of a hash and a password.
module _ (matches : String → String → Bool) where
  abbrev pub matches_any : String → Option (List String) → Bool
  matches_any password none = false
  matches_any password (some hashes) = any (λ hash. matches hash password) hashes

  -- `verifyCredentials`
  unfoldable pub verify_credentials : Option Users → String → String → Bool
  unfolding lookup
  verify_credentials none username password = false
  verify_credentials (some users) username password = matches_any password (lookup username users)

  -- `Middleware`, on what `BasicAuth` finds.
  unfoldable pub middleware : Option Users → Option (String × String) → Verdict
  unfolding verify_credentials
  middleware users none = no_credentials
  middleware users (some (username, password)) =
      if not (verify_credentials users username password)
      then invalid_credentials
      else handled username
