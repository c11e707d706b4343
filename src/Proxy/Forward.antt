-- ===== src/Proxy/Forward.antt =====
-- internal/proxy/handler.go: what is sent upstream, `copyHeaders`, `injectDefaults` and `doUpstream`,
-- and the way of the response back, `streamBody`. A header maps a name to its values. Go lists a
-- map in any order; here it is the order of the table. The canonical form of a name, the sum of two
-- texts and the reading and writing of JSON are arguments; a JSON value is a `V`.
pub mod Headers
pub mod Body
pub mod Relayed
use prompt_response.Common.{
  ℕ, Bool, true, false, ◌||◌, String, List, [], ◌∷◌, ◌++◌, Option, none, some, ◌>>=◌, str_eq,
  if◌then◌else◌, Table, lookup, lookup_or, insert, string_eq,
}
use prompt_response.Types.{Replica}
use prompt_response.Proxy.Retry.{member}
use prompt_response.Proxy.Stream.{StreamInterceptor, write}

abbrev pub Header : Type 0
Header = Table String (List String)

-- `hopByHop`.
abbrev pub hop_by_hop : List String
hop_by_hop =
    "Connection" ∷ "Keep-Alive" ∷ "Proxy-Authenticate" ∷ "Proxy-Authorization" ∷ "Te" ∷ "Trailers"
    ∷ "Transfer-Encoding" ∷ "Upgrade" ∷ []

module _ (canonical : String → String) where
  -- `Header.Add` for each of the values.
  unfoldable pub add_values : Header → String → List String → Header
  add_values dst k [] = dst
  add_values dst k (v ∷ vs) =
      add_values (insert (canonical k) (lookup_or [] (canonical k) dst ++ (v ∷ [])) dst) k vs

  unfoldable pub copy_headers : Header → Header → Header
  copy_headers dst [] = dst
  copy_headers dst ((k, vs) ∷ src) =
      if member hop_by_hop (canonical k)
      then copy_headers dst src
      else copy_headers (add_values dst k vs) src

module _ {V : Type 0} where
  -- `parsed` is the map that was read, `none` if it is nil; a write to a nil map panics.
  unfoldable pub is_present : Option V → Bool
  is_present none = false
  is_present (some v) = true

  has_key : Option (Table String V) → String → Bool
  unfolding is_present
  has_key none key = false
  has_key (some m) key = is_present (lookup key m)

  assign : Option (Table String V) → String → V → Option (Table String V)
  assign none key v = none
  assign (some m) key v = some (insert key v m)

  -- One of the two settings, with `modified`.
  unfoldable pub put_default :
      String → Option V → Option (Table String V) × Bool → Option (Option (Table String V) × Bool)
  unfolding has_key assign
  put_default key none (parsed, modified) = some (parsed, modified)
  put_default key (some v) (parsed, modified) =
      if has_key parsed key
      then some (parsed, modified)
      else assign parsed key v >>= λ m. some (some m, true)

-- An error of `Marshal` leaves the body as it was.
pub or_body : {B : Type 0} → B → Option B → B
or_body body none = body
or_body body (some out) = out

module _ {B V : Type 0} (unmarshal : B → Option (Option (Table String V)))
    (marshal : Option (Table String V) → Option B) (frequency presence : Option V) where
  unfoldable pub inject_in : B → Option (Option (Table String V)) → Option B
  unfolding or_body
  inject_in body none = some body
  inject_in body (some parsed) =
      put_default "frequency_penalty" frequency (parsed, false)
      >>= put_default "presence_penalty" presence
      >>= λ (parsed', modified). some (if modified then or_body body (marshal parsed') else body)

  -- `none` is the panic of a write to a nil map.
  unfoldable pub inject_defaults : B → Option B
  unfolding inject_in
  inject_defaults body = inject_in body (unmarshal body)

-- The request that `doUpstream` sends.
pub record UpstreamRequest (B : Type 0) : Type 0 where
  pub url : String
  pub method : String
  pub header : Header
  pub body : B

unfoldable pub do_upstream :
    {N B : Type 0}
    → (String → String)
    → (String → String → String)
    → Replica N
    → B
    → String
    → String
    → Header
    → UpstreamRequest B
do_upstream canonical joined replica body method path header = record {
  url = joined replica.url path;
  method = method;
  header = copy_headers canonical [] header;
  body = body;
}

-- A read of the response's body: its bytes, the time, whether the client took them, and whether
-- the read also gave an error or the end.
pub record Read : Type 0 where
  pub bytes : List ℕ
  pub at : ℕ
  pub taken : Bool
  pub ended : Bool

wrote_nothing : List ℕ → Bool
wrote_nothing [] = true
wrote_nothing (c ∷ cs) = false

module _ (decode : List ℕ → Option (List (List ℕ))) where
  -- The loop over the reads that the body gives, until one of them ends it.
  unfoldable pub stream_body : StreamInterceptor → List Read → StreamInterceptor
  unfolding wrote_nothing
  stream_body si [] = si
  stream_body si (r ∷ rs) =
      let si' = if wrote_nothing r.bytes then si else write decode si r.at r.bytes in
      let rest = stream_body si' rs in
      if r.ended then si' else if wrote_nothing r.bytes || r.taken then rest else si'
