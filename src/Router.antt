-- ===== src/Router.antt =====
-- cmd/router/main.go and internal/middleware/middleware.go: the handlers around the proxy, from the
-- inside out: the timeout, the limit of the body, the rate limiter, authentication and the request
-- id. The first two are calls of the HTTP library and left out. The proxy is an argument, which gets
-- the request's id and its tenant, if there is one.
pub mod Ids
pub mod Order
pub mod Quota
use prompt_response.Common.{
  ℕ, ◌+◌, ◌-◌, ◌/◌, ◌%◌, String, List, [], ◌∷◌, ◌++◌, Option, none, some, if◌then◌else◌, ltb, codes,
  hex_digit,
}
use prompt_response.Auth.{Keystore, Verdict, pass, pass_as, key_required, invalid_key}
use prompt_response.Auth
use prompt_response.RateLimit

-- `hex.EncodeToString`.
unfoldable pub encode_to_string : List ℕ → List ℕ
encode_to_string [] = []
encode_to_string (b ∷ bs) = hex_digit (b / 16) ∷ hex_digit (b % 16) ∷ encode_to_string bs

-- The random bytes are an argument, `none` if they cannot be read, and so is `%d`; the counter is
-- passed on.
unfoldable pub generate_request_id : (ℕ → List ℕ) → Option (List ℕ) → ℕ → List ℕ × ℕ
generate_request_id decimal (some bytes) counter = (encode_to_string bytes, counter)
generate_request_id decimal none counter = (codes "req-" ++ decimal (counter + 1), counter + 1)

-- `RequestID`: the header's value, or a new id if it is empty.
unfoldable pub request_id : (ℕ → List ℕ) → Option (List ℕ) → ℕ → List ℕ → List ℕ × ℕ
request_id decimal random counter [] = generate_request_id decimal random counter
request_id decimal random counter (c ∷ cs) = (c ∷ cs, counter)

-- What the handlers read of a request.
pub record Request : Type 0 where
  pub path : String
  pub authorization : List ℕ
  pub x_api_key : List ℕ
  pub remote_addr : String
  pub id : List ℕ

-- The reply of a refusal, of status 401 or 429, or the proxy's, `A`.
pub data Reply (A : Type 0) : Type 0 where
  unauthorized : Verdict → Reply A
  too_many : ℕ → ℕ → ℕ → Reply A
  handled : A → Reply A

-- What the handlers keep: the limiter, if it is enabled, the counter of the request ids, and the
-- state of the proxy.
pub record Server (S : Type 0) : Type 0 where
  pub limiter : Option RateLimit.Registry
  pub fallback_counter : ℕ
  pub proxy : S

module _ {S A : Type 0} (split_host_port : String → Option String) (decimal : ℕ → List ℕ)
    (proxy : S → List ℕ → Option String → A × S) where
  -- The proxy, for a request of this id and tenant.
  unfoldable pub handle : Server S → List ℕ → Option String → Reply A × Server S
  handle s id tenant = let (a, p) = proxy s.proxy id tenant in (handled a, record s { proxy = p })

  after_limit :
      Server S → List ℕ → Option String → RateLimit.Reply × RateLimit.Registry → Reply A × Server S
  unfolding handle
  after_limit s id tenant (RateLimit.pass, reg) = handle (record s { limiter = some reg }) id tenant
  after_limit s id tenant (RateLimit.pass_with limit left, reg) =
      handle (record s { limiter = some reg }) id tenant
  after_limit s id tenant (RateLimit.too_many limit left after, reg) =
      (too_many limit left after, record s { limiter = some reg })

  -- The limiter, if it is enabled.
  limited :
      Server S
      → List ℕ
      → Option String
      → Request
      → ℕ
      → Option RateLimit.Registry
      → Reply A × Server S
  unfolding handle after_limit
  limited s id tenant r now none = handle s id tenant
  limited s id tenant r now (some reg) = after_limit s id tenant (
      RateLimit.middleware split_host_port reg
        (record { path = r.path; tenant = tenant; remote_addr = r.remote_addr }) now)

  after_auth : Server S → List ℕ → Request → ℕ → Verdict → Reply A × Server S
  unfolding limited
  after_auth s id r now pass = limited s id none r now s.limiter
  after_auth s id r now (pass_as tenant) = limited s id (some tenant) r now s.limiter
  after_auth s id r now key_required = (unauthorized key_required, s)
  after_auth s id r now invalid_key = (unauthorized invalid_key, s)

  -- Authentication, if it is enabled.
  verdict : Option Keystore → Request → Verdict
  verdict none r = pass
  verdict (some ks) r =
      Auth.middleware ks
        (record { path = r.path; authorization = r.authorization; x_api_key = r.x_api_key })

  -- The whole chain; `random` are the bytes that were read for an id.
  unfoldable pub serve :
      Option Keystore → Server S → Option (List ℕ) → Request → ℕ → Reply A × Server S
  unfolding after_auth verdict
  serve ks s random r now =
      let (id, counter) = request_id decimal random s.fallback_counter r.id in
      after_auth (record s { fallback_counter = counter }) id r now (verdict ks r)
