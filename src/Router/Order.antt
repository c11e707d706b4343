-- ===== src/Router/Order.antt =====
-- Authentication stands before the limiter, and the limiter before the proxy.
use prompt_response.Common.{
  none, list_eq, [], Option-cases, ℕ, ◌≡◌, ◌⊎◌, refl, sym, ap, ◌∙◌, true, false, String, List,
  Option, some, if◌then◌else◌, str_eq, Bool-cases, inl, inr,
}
use prompt_response.Auth.{
  KeyEntry, Verdict, pass, pass_as, key_required, invalid_key, new_keystore, extract_key,
}
use prompt_response.Auth
use prompt_response.Auth.Keys.{verdict_of, last_tenant, middleware-new_keystore}
use prompt_response.RateLimit
use prompt_response.RateLimit.Clients.{middleware_lem}
use prompt_response.Router.{
  Request, unauthorized, too_many, handled, Server, request_id, handle, after_limit, limited,
  after_auth, verdict, serve,
}

-- What authentication and the limiter read of a request.
abbrev pub auth_request : Request → Auth.Request
auth_request r = record { path = r.path; authorization = r.authorization; x_api_key = r.x_api_key }

abbrev pub limit_request : Request → String → RateLimit.Request
limit_request r tenant = record { path = r.path; tenant = some tenant; remote_addr = r.remote_addr }

-- A tenant has a verdict only on a path that is not a health probe's.
tenant-charged :
    (es : List KeyEntry) (r : Request) (tenant : String)
    → verdict_of es (auth_request r) ≡ pass_as tenant
    → RateLimit.skip_path r.path ≡ false
unfolding Auth.skip_path RateLimit.skip_path
tenant-charged es r tenant e = elim (Bool-cases (RateLimit.skip_path r.path)) [
  | inl skipped ↦
      let passes : verdict_of es (auth_request r) ≡ pass = rw skipped refl in cc (sym passes ∙ e)
  | inr charged ↦ charged
]

-- Without a verdict of its own, a request is a health probe.
pass-skipped :
    (es : List KeyEntry) (r : Request)
    → verdict_of es (auth_request r) ≡ pass
    → RateLimit.skip_path r.path ≡ true
unfolding Auth.skip_path RateLimit.skip_path
pass-skipped es r e = elim (Bool-cases (RateLimit.skip_path r.path)) [
  | inl skipped ↦ skipped
  | inr charged ↦
      let key = extract_key (auth_request r) in
      elim (Bool-cases (list_eq key [])) [
        | inl empty ↦
            let asks : verdict_of es (auth_request r) ≡ key_required = rw (charged, empty) refl in
            cc (sym asks ∙ e)
        | inr given ↦ elim (Option-cases (last_tenant key none es)) [
          | inl unknown ↦
              let refuses : verdict_of es (auth_request r) ≡ invalid_key =
                rw (charged, given, unknown) refl in
              cc (sym refuses ∙ e)
          | inr (t, known) ↦
              let is_t : verdict_of es (auth_request r) ≡ pass_as t =
                rw (charged, given, known) refl in
              cc (sym is_t ∙ e)
        ]
      ]
]

module _ {S A : Type 0} (split_host_port : String → Option String) (decimal : ℕ → List ℕ)
    (proxy : S → List ℕ → Option String → A × S) where
  -- What the limiter does for a tenant.
  abbrev pub Limited : RateLimit.Registry → String → ℕ → RateLimit.Registry → Type 0
  Limited reg tenant now reg' =
      (j : String) (later : ℕ)
      → RateLimit.get_or_create reg' j later ≡ (
          if str_eq tenant j
          then (RateLimit.allow (RateLimit.get_or_create reg tenant now) now).2
          else RateLimit.get_or_create reg j later)

  after_auth-refused :
      (s : Server S) (id : List ℕ) (r : Request) (now : ℕ) (v : Verdict)
      → (v ≡ key_required) ⊎ (v ≡ invalid_key)
      → after_auth split_host_port decimal proxy s id r now v ≡ (unauthorized v, s)
  unfolding after_auth
  after_auth-refused s id r now v (inl e) = rw e refl
  after_auth-refused s id r now v (inr e) = rw e refl

  -- The limiter's answer for a tenant, by its bucket.
  limit-tenant :
      (reg : RateLimit.Registry) (r : Request) (tenant : String) (now : ℕ)
      → RateLimit.skip_path r.path ≡ false
      → let m = RateLimit.middleware split_host_port reg (limit_request r tenant) now in
        let ok = (RateLimit.allow (RateLimit.get_or_create reg tenant now) now).0 in
        Limited reg tenant now m.1
        × (ok ≡ true → (a : ℕ) × (b : ℕ) × (m.0 ≡ RateLimit.pass_with a b))
        × (ok ≡ false → (a : ℕ) × (b : ℕ) × (c : ℕ) × (m.0 ≡ RateLimit.too_many a b c))
  unfolding RateLimit.client_key RateLimit.tenant_key
  limit-tenant reg r tenant now charged =
      let (reply, buckets) = middleware_lem split_host_port reg (limit_request r tenant) now in
      let shown = RateLimit.format_0f (RateLimit.limit reg) 1000 in
      let left =
        RateLimit.format_0f (RateLimit.allow (RateLimit.get_or_create reg tenant now) now).1
          RateLimit.unit in
      (
        λ j later. buckets j later ∙ rw charged refl,
        λ ok. (shown, left, reply ∙ rw (charged, ok) refl),
        λ ok. (shown, left, RateLimit.retry_after reg, reply ∙ rw (charged, ok) refl),
      )

  after_limit-pass :
      (s : Server S) (id : List ℕ) (tenant : Option String) (a b : ℕ)
      (m : RateLimit.Reply × RateLimit.Registry)
      → m.0 ≡ RateLimit.pass_with a b
      → after_limit split_host_port decimal proxy s id tenant m
        ≡ handle split_host_port decimal proxy (record s { limiter = some m.1 }) id tenant
  unfolding after_limit
  after_limit-pass s id tenant a b (x, reg) e = rw e refl

  after_limit-too_many :
      (s : Server S) (id : List ℕ) (tenant : Option String) (a b c : ℕ)
      (m : RateLimit.Reply × RateLimit.Registry)
      → m.0 ≡ RateLimit.too_many a b c
      → after_limit split_host_port decimal proxy s id tenant m
        ≡ (too_many a b c, record s { limiter = some m.1 })
  unfolding after_limit
  after_limit-too_many s id tenant a b c (x, reg) e = rw e refl

  -- The limiter in a reply is the one that the middleware gives.
  after_limit-limiter :
      (s : Server S) (id : List ℕ) (tenant : Option String)
      (m : RateLimit.Reply × RateLimit.Registry)
      → (after_limit split_host_port decimal proxy s id tenant m).1.limiter ≡ some m.1
  unfolding after_limit handle
  after_limit-limiter s id tenant (RateLimit.pass, reg) = refl
  after_limit-limiter s id tenant (RateLimit.pass_with a b, reg) = refl
  after_limit-limiter s id tenant (RateLimit.too_many a b c, reg) = refl

  -- With authentication over the configured keys and a limiter, by the verdict on the request's path
  -- and key: a health probe gets the proxy's reply, without a tenant, and the limiter does not change.
  -- Any other request without a valid key is refused, and neither the limiter nor the proxy changes. A
  -- request of a tenant changes the limiter's bucket of that tenant alone; if the bucket permits it, its
  -- reply is the proxy's for this id and tenant, and if not, it is refused as too many, with a limit, a
  -- remainder and a wait, and the proxy does not change.
  pub serve-new_keystore :
      (es : List KeyEntry) (s : Server S) (reg : RateLimit.Registry) (random : Option (List ℕ))
      (r : Request) (now : ℕ)
      → s.limiter ≡ some reg
      → let v = verdict_of es (auth_request r) in
        let id = (request_id decimal random s.fallback_counter r.id).0 in
        let (reply, s') =
          serve split_host_port decimal proxy (some (new_keystore es)) s random r now in
        (v ≡ pass
          → (reply ≡ handled (proxy s.proxy id none).0)
            × (s'.limiter ≡ some reg)
            × (s'.proxy ≡ (proxy s.proxy id none).1))
        × ((v ≡ key_required) ⊎ (v ≡ invalid_key)
            → (reply ≡ unauthorized v) × (s'.limiter ≡ some reg) × (s'.proxy ≡ s.proxy))
        × ((tenant : String)
            → v ≡ pass_as tenant
            → (reg' : RateLimit.Registry) × (s'.limiter ≡ some reg')
              × Limited reg tenant now reg'
              × ((RateLimit.allow (RateLimit.get_or_create reg tenant now) now).0 ≡ true
                  → (reply ≡ handled (proxy s.proxy id (some tenant)).0)
                    × (s'.proxy ≡ (proxy s.proxy id (some tenant)).1))
              × ((RateLimit.allow (RateLimit.get_or_create reg tenant now) now).0 ≡ false
                  → (shown : ℕ) × (left : ℕ) × (wait : ℕ) × (reply ≡ too_many shown left wait)
                    × (s'.proxy ≡ s.proxy)))
  unfolding serve verdict after_auth limited after_limit handle RateLimit.middleware
  serve-new_keystore es s reg random r now on =
      let (id, counter) = request_id decimal random s.fallback_counter r.id in
      let s₁ = record s { fallback_counter = counter } in
      rw (middleware-new_keystore es (auth_request r)) (
        λ e. rw (e, on) (rw (pass-skipped es r e) (refl, refl, refl)),
        λ bad.
            let same = after_auth-refused s₁ id r now (verdict_of es (auth_request r)) bad in
            (ap (λ z. z.0) same, ap (λ z. z.1.limiter) same ∙ on, ap (λ z. z.1.proxy) same),
        λ tenant e.
            let m = RateLimit.middleware split_host_port reg (limit_request r tenant) now in
            let (buckets, permits, refuses) =
              limit-tenant reg r tenant now (tenant-charged es r tenant e) in
            rw (e, on)
              (
                m.1,
                after_limit-limiter s₁ id (some tenant) m,
                buckets,
                λ ok.
                    let (a, b, passed) = permits ok in
                    let run = after_limit-pass s₁ id (some tenant) a b m passed in
                    (ap (λ z. z.0) run, ap (λ z. z.1.proxy) run),
                λ ok.
                    let (a, b, c, refused) = refuses ok in
                    let run = after_limit-too_many s₁ id (some tenant) a b c m refused in
                    (a, b, c, ap (λ z. z.0) run, ap (λ z. z.1.proxy) run),
              ),
      )
