-- ===== src/Circuit/Registry.antt =====
-- internal/circuit/breaker.go, `Registry`: one breaker for each replica, made at its first use. The
-- read lock, the second look under the write lock and the method's own lock make one step here.
pub mod Separate
pub mod Sound
use prompt_response.Common.{
  ℕ, Bool, Option, none, some, if◌then◌else◌, ◌>>=◌, String, Float, Table, lookup, insert, [],
  string_eq,
}
use prompt_response.Circuit.Breaker.{Breaker, State, new_breaker}
use prompt_response.Circuit.Breaker

pub record Config (N : Type 0) : Type 0 where
  pub error_threshold : N
  pub window_size : ℕ
  pub cooldown : ℕ
  pub min_samples : ℕ

pub record Registry (N : Type 0) : Type 0 where
  pub breakers : Table String (Breaker N)
  pub threshold : N
  pub window_size : ℕ
  pub cooldown : ℕ
  pub min_samples : ℕ

module _ {N : Type 0} where
  unfoldable pub new_registry : Config N → Registry N
  new_registry cfg = record {
    breakers = [];
    threshold = cfg.error_threshold;
    window_size = cfg.window_size;
    cooldown = cfg.cooldown;
    min_samples = cfg.min_samples;
  }

  abbrev pub with_breaker : Registry N → String → Breaker N → Registry N
  with_breaker reg id b = record reg { breakers = insert id b reg.breakers }

  found_or_new : Registry N → String → ℕ → Option (Breaker N) → Breaker N × Registry N
  found_or_new reg id now (some b) = (b, reg)
  found_or_new reg id now none =
      let b = new_breaker reg.threshold reg.window_size reg.cooldown reg.min_samples now in
      (b, with_breaker reg id b)

  unfoldable pub get_or_create : Registry N → String → ℕ → Breaker N × Registry N
  unfolding found_or_new
  get_or_create reg id now = found_or_new reg id now (lookup id reg.breakers)

  -- The registry shares its breakers by pointer, so a method's change shows in the map.
  unfoldable pub allow : Registry N → String → ℕ → Bool × Registry N
  allow reg id now =
      let (b, reg') = get_or_create reg id now in
      let (ok, b') = Breaker.allow b now in (ok, with_breaker reg' id b')

  unfoldable pub state_of : Registry N → String → ℕ → State × Registry N
  state_of reg id now =
      let (b, reg') = get_or_create reg id now in
      let (s, b') = Breaker.state_now b now in (s, with_breaker reg' id b')

  unfoldable pub record_success : Registry N → String → ℕ → Option (Registry N)
  record_success reg id now =
      let (b, reg') = get_or_create reg id now in
      Breaker.record_success b now >>= λ b'. some (with_breaker reg' id b')

module _ {N : Type 0} ⦃F : Float N⦄ where
  unfoldable pub record_failure : Registry N → String → ℕ → Option (Registry N)
  record_failure reg id now =
      let (b, reg') = get_or_create reg id now in
      Breaker.record_failure b now >>= λ b'. some (with_breaker reg' id b')

  unfoldable pub error_rate : Registry N → String → ℕ → Option (N × Registry N)
  error_rate reg id now =
      let (b, reg') = get_or_create reg id now in
      Breaker.error_rate b now >>= λ (r, b'). some (r, with_breaker reg' id b')
