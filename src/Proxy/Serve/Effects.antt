-- ===== src/Proxy/Serve/Effects.antt =====
-- What each reply of the handler leaves behind.
use prompt_response.Common.{
  ℕ, ◌<◌, ◌≡◌, ◌⊎◌, refl, sym, ap, Bool, true, false, String, List, [], ◌∷◌, Option, none, some,
  ◌>>=◌, if◌then◌else◌, Float, ltb, All, Bool-cases, inl, inr, str_eq, ◌==◌, ◌||◌, not,
}
use prompt_response.Types.{ModelTier, Replica}
use prompt_response.Audit.{Record}
use prompt_response.Scorer.Picks.{IsNamed}
use prompt_response.Proxy.Messages.{Message, extract_messages, estimate_tokens}
use prompt_response.Proxy.Retry.Attempts.{IsSome, Accepted, retry_loop_lem}
use prompt_response.Proxy.Turn.{Turn, lock_tier}
use prompt_response.Proxy.Forward.{inject_defaults, do_upstream}
use prompt_response.Proxy.Serve.{
  Outside, Handler, Router, Request, ClassRequest, ClassifyResponse, Meets, Reply,
  tenant_or_anonymous, put_audit, put_usage, put_event, answer_or_small,
}
use prompt_response.Proxy.Serve.Handle.{
  mid_stream_stall, judge_stream, attempts_of, conclude, complete, check_messages, check_json,
  check_body, serve_http, refusal_record, served_record, turn_of, class_request, stats_of, view_of,
}

module _ {B V : Type 0} (out : Outside B V) where
  -- The estimate of the tokens of the request's prompt: none if there are no messages to be read.
  abbrev pub prompt_estimate : Option (List Message) → ℕ
  prompt_estimate none = 0
  prompt_estimate (some ms) =
      let (system, user) = extract_messages ms in
      estimate_tokens (out.bytes (out.joined system user))

  abbrev pub prompt_tokens : Request B → ℕ
  prompt_tokens r = prompt_estimate (r.body >>= λ body. out.messages body)

module _ {N S C B V : Type 0} ⦃F : Float N⦄ (out : Outside B V) (h : Handler N S C V)
    (r : Request B) (d : Meets N B) where
  -- The trail has one more record, of this request and with this status.
  abbrev pub Audited : Router N S C → ℕ → Router N S C → Type 0
  Audited s code s' =
      (rec : Record N) × (rec.request_id ≡ r.request_id)
      × (rec.tenant ≡ r.tenant)
      × (rec.status_code ≡ code)
      × (put_audit s.audit rec ≡ some s'.audit)

  -- The tracker has one more request of the tenant, and the sink was given an event with the same
  -- name and counts; the input is the estimate of the prompt, and the output is what the interceptor
  -- counted.
  abbrev pub Used : Router N S C → Router N S C → Type 0
  Used s s' =
      (s'.usage
        ≡ put_usage s.usage (tenant_or_anonymous r.tenant) (prompt_tokens out r)
            (stats_of out h r d).output_tokens d.used_at)
      × (s'.sink
          ≡ put_event s.usage s.sink (record {
            tenant = tenant_or_anonymous r.tenant;
            input = prompt_tokens out r;
            output = (stats_of out h r d).output_tokens;
            at = d.sent_at;
          }))

  -- What a reply says of the router before and after it.
  abbrev pub Effect : Router N S C → Reply N × Router N S C → Type 0
  Effect s (Reply.health, s') = s' ≡ s
  Effect s (Reply.readiness _, s') = s' ≡ s
  Effect s (Reply.models _, s') = s' ≡ s
  Effect s (Reply.status _, s') = s' ≡ record s { circuit = s'.circuit }
  Effect s (Reply.audit _, s') = s' ≡ s
  Effect s (Reply.usage _, s') = s' ≡ s
  Effect s (Reply.refused code _, s') =
      (((code ≡ 400) ⊎ (code ≡ 405)) × (s' ≡ s))
      ⊎ ((code ≡ 503)
          × (s'.store ≡ s.store)
          × (s'.usage ≡ s.usage)
          × (s'.sink ≡ s.sink)
          × Audited s 503 s')
  Effect s (Reply.relayed rep code, s') = (code < 500) × Audited s code s' × Used s s'

  abbrev Gives : Router N S C → Option (Reply N × Router N S C) → Type 0
  Gives s m = (res : Reply N × Router N S C) × (m ≡ some res) × Effect s res

  Gives-bind :
      {A : Type 0} (s : Router N S C) (m : Option A) (f : A → Option (Reply N × Router N S C))
      → IsSome m
      → ((a : A) → m ≡ some a → Gives s (f a))
      → Gives s (m >>= f)
  Gives-bind s none f total k = elim total [ ]
  Gives-bind s (some a) f total k = k a refl

  judge_stream-IsSome :
      (c : C) (rep : Replica N)
      → ((c : C) (id : String) → IsSome (h.ops.record_failure c id))
      → IsSome (judge_stream out h r d c rep)
  unfolding judge_stream
  judge_stream-IsSome c rep fail =
      elim (Bool-cases (mid_stream_stall out h r d || not (stats_of out h r d).done_seen)) [
        | inl dead ↦ rw dead (fail c rep.id)
        | inr done ↦ rw done tt
      ]

  conclude-Gives :
      (s : Router N S C) (t : Turn) (q : ClassRequest) (a : ClassifyResponse N) (tier : ModelTier)
      (excluded : List String) (c : C) (resp : Option (Replica N × ℕ))
      → ((c : C) (id : String) → IsSome (h.ops.record_failure c id))
      → ((rec : Record N) → IsSome (put_audit s.audit rec))
      → Accepted resp excluded
      → q.token_count ≡ prompt_tokens out r
      → Gives s (conclude out h r d s t q a tier excluded c resp)
  unfolding conclude refusal_record served_record
  conclude-Gives s t q a tier excluded c none fail trail good counts =
      Gives-bind s (put_audit s.audit _) _ (trail _)
        (λ audit e. (_, refl, inr (refl, refl, refl, refl, (_, refl, refl, refl, e))))
  conclude-Gives s t q a tier excluded c (some (rep, code)) fail trail good counts =
      Gives-bind s (judge_stream out h r d c rep) _ (judge_stream-IsSome c rep fail) (λ c' judged.
        Gives-bind s (put_audit s.audit _) _ (trail _) (λ audit e. (
          _,
          refl,
          (
            good.0,
            (_, refl, refl, refl, e),
            (
              ap
                  (λ n.
                    put_usage s.usage (tenant_or_anonymous r.tenant) n
                      (stats_of out h r d).output_tokens d.used_at)
                  counts,
              ap
                  (λ n. put_event s.usage s.sink (record {
                    tenant = tenant_or_anonymous r.tenant;
                    input = n;
                    output = (stats_of out h r d).output_tokens;
                    at = d.sent_at;
                  }))
                  counts,
            ),
          ),
        )))

  complete-Gives :
      (s : Router N S C) (body : B) (ms : List Message)
      → All IsNamed h.replicas
      → ((c : C) (id : String) → IsSome (h.ops.record_success c id))
      → ((c : C) (id : String) → IsSome (h.ops.record_failure c id))
      → ((rec : Record N) → IsSome (put_audit s.audit rec))
      → prompt_estimate out (some ms) ≡ prompt_tokens out r
      → Gives s (complete out h r d s body ms)
  unfolding complete attempts_of class_request
  complete-Gives s body ms named ok fail trail counts =
      let tier =
        lock_tier h.replicas
          (h.store.get_conversation s.store (turn_of out h r d ms).conv_hash d.read_at)
          (answer_or_small (d.classify (class_request out h r d s.store ms))).tier in
      let (tried, e, fine) =
        retry_loop_lem h.ops h.replicas tier (ltb 0 h.stall_timeout)
          (view_of out h r d s.store (turn_of out h r d ms).prefix_hash)
          (λ attempt rep.
            d.upstream attempt
              (do_upstream out.canonical out.joined rep body r.method r.path r.header))
          named ok fail h.max_retries s.circuit in
      rw e (
        conclude-Gives s _ _ _ tier tried.excluded tried.circuit tried.resp fail trail fine.good
          counts)

  Gives-if :
      (s : Router N S C) (b : Bool) (x y : Option (Reply N × Router N S C))
      → Gives s x
      → Gives s y
      → Gives s (if b then x else y)
  Gives-if s true x y gx gy = gx
  Gives-if s false x y gx gy = gy

  check_messages-Gives :
      (s : Router N S C) (body : B) (ms : List Message)
      → Gives s (complete out h r d s body ms)
      → Gives s (check_messages out h r d s body ms)
  unfolding check_messages
  check_messages-Gives s body [] rest = (_, refl, inl (inl refl, refl))
  check_messages-Gives s body (m ∷ ms) rest = rest

  check_json-Gives :
      (s : Router N S C) (body : B) (read : Option (List Message))
      → IsSome
          (inject_defaults out.unmarshal out.marshal h.frequency_penalty h.presence_penalty body)
      → ((body : B) (ms : List Message) → read ≡ some ms → Gives s (complete out h r d s body ms))
      → Gives s (check_json out h r d s body read)
  unfolding check_json
  check_json-Gives s body none fills rest = (_, refl, inl (inl refl, refl))
  check_json-Gives s body (some ms) fills rest =
      Gives-bind s _ _ fills (λ body' e. check_messages-Gives s body' ms (rest body' ms refl))

  check_body-Gives :
      (s : Router N S C) (read : Option B)
      → ((body : B)
          → read ≡ some body
          → IsSome (
              inject_defaults out.unmarshal out.marshal h.frequency_penalty h.presence_penalty
                body))
      → ((body : B) (ms : List Message)
          → (read >>= λ b. out.messages b) ≡ some ms
          → Gives s (complete out h r d s body ms))
      → Gives s (check_body out h r d s read)
  unfolding check_body
  check_body-Gives s none fills rest = (_, refl, inl (inl refl, refl))
  check_body-Gives s (some body) fills rest =
      Gives-if s (out.size body == 0) _ _ (_, refl, inl (inl refl, refl))
        (check_json-Gives s body (out.messages body) (fills body refl) rest)

  -- When the replicas have ids, and neither the circuit, nor the trail, nor the setting of defaults in
  -- the request's body panics, every request has a reply. A reply of status 400 or 405, and a page but
  -- for the status page, leave the router as it was; the status page changes the circuit alone. A 503
  -- leaves the store, the tracker and the sink as they were and records one decision of status 503 in
  -- the trail. A relayed response has a status below 500, records one decision with its status, and
  -- adds one request of the tenant, or of `anonymous`, to the tracker and the same counts to the sink:
  -- the estimated tokens of the prompt, and the output tokens that the interceptor counted.
  pub serve_http_lem :
      (s : Router N S C)
      → All IsNamed h.replicas
      → ((c : C) (id : String) → IsSome (h.ops.record_success c id))
      → ((c : C) (id : String) → IsSome (h.ops.record_failure c id))
      → ((c : C) → IsSome (h.report c))
      → ((rec : Record N) → IsSome (put_audit s.audit rec))
      → ((body : B)
          → r.body ≡ some body
          → IsSome (
              inject_defaults out.unmarshal out.marshal h.frequency_penalty h.presence_penalty
                body))
      → (res : Reply N × Router N S C) × (serve_http out h r d s ≡ some res) × Effect s res
  unfolding serve_http
  serve_http_lem s named ok fail report trail fills =
      Gives-if s (str_eq r.path "/healthz") _ _ (_, refl, refl)
        (Gives-if s (str_eq r.path "/readyz") _ _ (_, refl, refl)
          (Gives-if s (str_eq r.path "/v1/models") _ _ (_, refl, refl)
            (Gives-if s (str_eq r.path "/v1/router/status") _ _
              (Gives-bind s (h.report s.circuit) _ (report s.circuit) (λ rows e. (_, refl, refl)))
              (Gives-if s (str_eq r.path "/v1/router/audit") _ _ (_, refl, refl)
                (Gives-if s (str_eq r.path "/v1/router/usage") _ _ (_, refl, refl)
                  (Gives-if s (str_eq r.method "POST") _ _
                    (check_body-Gives s r.body fills (λ body ms e.
                      complete-Gives s body ms named ok fail trail
                        (sym (ap (prompt_estimate out) e))))
                    (_, refl, inl (inr refl, refl))))))))
