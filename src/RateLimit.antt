-- ===== src/RateLimit.antt =====
-- internal/ratelimit: token buckets for each client, and the middleware that consults them.
-- bucket.go counts tokens in float64. Here a token is `unit` equal parts, chosen so that a rate of
-- one thousandth of a request in a minute adds one part in a nanosecond: the arithmetic is then exact,
-- and what float64 rounds off, which can refuse a client whose token is complete but for the last bit,
-- is not modelled. `requests_per_minute` is in thousandths.
pub mod Bounds
pub mod Clients
pub mod Budget
use prompt_response.Common.{
  ℕ, ◌+◌, ◌-◌, ◌*◌, ◌/◌, ◌%◌, ◌^◌, Bool, true, false, String, Option, none, some, List, [], ◌∷◌,
  ltb, leb, ◌==◌, str_eq, ◌||◌, ◌&&◌, if◌then◌else◌, Table, lookup, insert, string_eq,
}

abbrev pub second : ℕ
second = 10 ^ 9

-- The parts of a token: 60 * 1000 * 10 ^ 9.
abbrev pub unit : ℕ
unit = 60 * 1000 * second

pub record Config : Type 0 where
  pub requests_per_minute : ℕ
  pub burst : ℕ

-- `rate` is in parts in a nanosecond.
pub record TokenBucket : Type 0 where
  pub tokens : ℕ
  pub capacity : ℕ
  pub rate : ℕ
  pub last : ℕ

unfoldable pub new_bucket : ℕ → ℕ → ℕ → TokenBucket
new_bucket capacity rate now = record {
  tokens = capacity;
  capacity = capacity;
  rate = rate;
  last = now;
}

-- The tokens at a time that is not before the last call, which is what a monotonic clock read under
-- the lock gives.
unfoldable pub refilled : TokenBucket → ℕ → ℕ
refilled b now =
    let filled = b.tokens + (now - b.last) * b.rate in
    if ltb b.capacity filled then b.capacity else filled

-- Whether the request is permitted, and the tokens that remain.
unfoldable pub allow : TokenBucket → ℕ → Bool × ℕ × TokenBucket
unfolding refilled
allow b now =
    let tokens = refilled b now in
    if ltb tokens unit
    then (false, 0, record b { last = now; tokens = tokens })
    else (true, tokens - unit, record b { last = now; tokens = tokens - unit })

pub record Registry : Type 0 where
  pub buckets : Table String TokenBucket
  pub cap : ℕ
  pub rate : ℕ

unfoldable pub new_registry : Config → Registry
new_registry cfg = record { buckets = []; cap = cfg.burst * unit; rate = cfg.requests_per_minute }

found_or_new : Registry → ℕ → Option TokenBucket → TokenBucket
found_or_new r now (some b) = b
found_or_new r now none = new_bucket r.cap r.rate now

-- The bucket of a key, made full at its first use.
unfoldable pub get_or_create : Registry → String → ℕ → TokenBucket
unfolding found_or_new
get_or_create r key now = found_or_new r now (lookup key r.buckets)

-- The map shares its buckets by pointer, so the bucket's change shows in it.
unfoldable pub allow_key : Registry → String → ℕ → Bool × ℕ × Registry
allow_key r key now =
    let (ok, remaining, b) = allow (get_or_create r key now) now in
    (ok, remaining, record r { buckets = insert key b r.buckets })

-- middleware.go. Requests a minute, in thousandths.
unfoldable pub limit : Registry → ℕ
limit r = r.rate

-- `%.0f` of a fraction: the nearest integer, a half to the even one.
unfoldable pub format_0f : ℕ → ℕ → ℕ
format_0f n d =
    let q = n / d in
    let twice = 2 * (n % d) in if ltb twice d then q else if ltb d twice then q + 1 else q + q % 2

-- `math.Ceil(60.0 / limit)`, for a limit that is not zero.
unfoldable pub retry_after : Registry → ℕ
retry_after r = (60 * 1000 + limit r - 1) / limit r

-- What the middleware reads of a request. The tenant is the one that authentication put in the
-- context.
pub record Request : Type 0 where
  pub path : String
  pub tenant : Option String
  pub remote_addr : String

unfoldable pub skip_path : String → Bool
skip_path path = str_eq path "/healthz" || str_eq path "/readyz"

-- `net.SplitHostPort` is an argument; `none` is its error.
host_key : String → Option String → String
host_key remote none = remote
host_key remote (some host) = if str_eq host "" then "unknown" else host

unfoldable pub tenant_key : (String → Option String) → Request → Option String → String
unfolding host_key
tenant_key split_host_port r (some tenant) = tenant
tenant_key split_host_port r none = host_key r.remote_addr (split_host_port r.remote_addr)

unfoldable pub client_key : (String → Option String) → Request → String
unfolding tenant_key
client_key split_host_port r = tenant_key split_host_port r r.tenant

-- The next handler is called with no headers added, or with the two rate limit headers; or the
-- request is refused with status 429, the headers and `Retry-After`.
pub data Reply : Type 0 where
  pass : Reply
  pass_with : ℕ → ℕ → Reply
  too_many : ℕ → ℕ → ℕ → Reply

unfoldable pub middleware : (String → Option String) → Registry → Request → ℕ → Reply × Registry
middleware split_host_port reg r now =
    if skip_path r.path
    then (pass, reg)
    else let (allowed, remaining, reg') = allow_key reg (client_key split_host_port r) now in
      let shown = format_0f (limit reg) 1000 in
      let left = format_0f remaining unit in
      if allowed
      then (pass_with shown left, reg')
      else (too_many shown left (retry_after reg), reg')
