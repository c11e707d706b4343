-- ===== src/Auth.antt =====
-- internal/auth: the key store and the middleware that asks it. A text is the list of its bytes.
pub mod Keys
use prompt_response.Common.{
  ℕ, ◌+◌, ◌/◌, Bool, true, false, ◌||◌, String, List, [], ◌∷◌, Option, none, some, if◌then◌else◌,
  leb, str_eq, codes, length, take, drop, has_prefix, Table, lookup, insert, Eq, list_eq,
  list_eq_iff,
}

instance abbrev pub bytes_eq : Eq (List ℕ)
bytes_eq = record { beq = list_eq; beq_iff = list_eq_iff }

-- auth.go.
pub record KeyEntry : Type 0 where
  pub key : List ℕ
  pub tenant : String

abbrev pub Keystore : Type 0
Keystore = Table (List ℕ) String

add_keys : Keystore → List KeyEntry → Keystore
add_keys ks [] = ks
add_keys ks (e ∷ es) = add_keys (insert e.key e.tenant ks) es

unfoldable pub new_keystore : List KeyEntry → Keystore
unfolding add_keys
new_keystore entries = add_keys [] entries

unfoldable pub validate : Keystore → List ℕ → Option String
validate ks key = lookup key ks

-- middleware.go. What it reads of a request: the path and two headers, empty if they are missing.
pub record Request : Type 0 where
  pub path : String
  pub authorization : List ℕ
  pub x_api_key : List ℕ

unfoldable pub skip_path : String → Bool
skip_path path = str_eq path "/healthz" || str_eq path "/readyz"

abbrev pub bearer : List ℕ
bearer = codes "Bearer "

-- An empty header has not the prefix.
unfoldable pub extract_key : Request → List ℕ
extract_key r =
    if has_prefix r.authorization bearer then drop (length bearer) r.authorization else r.x_api_key

-- The next handler is called, with a tenant in the context or without one; or the request is refused
-- with status 401 and a code.
pub data Verdict : Type 0 where
  pass : Verdict
  pass_as : String → Verdict
  key_required invalid_key : Verdict

found_tenant : Option String → Verdict
found_tenant none = invalid_key
found_tenant (some t) = pass_as t

check_key : Keystore → List ℕ → Verdict
unfolding found_tenant
check_key ks [] = key_required
check_key ks (c ∷ cs) = found_tenant (validate ks (c ∷ cs))

unfoldable pub middleware : Keystore → Request → Verdict
unfolding check_key
middleware ks r = if skip_path r.path then pass else check_key ks (extract_key r)

-- The part of a key that may be logged, before its dots.
unfoldable pub safe_prefix : List ℕ → List ℕ
safe_prefix key = if leb (length key) 8 then take (length key / 2) key else take 8 key
