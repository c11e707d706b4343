-- ===== src/Start/Served.antt =====
-- What the requests leave behind that a handler gets one after another.
use mathlib.Core.List.{map-append}
use prompt_response.Common.{
  ℕ, ◌+◌, ◌%◌, ◌<◌, ◌≡◌, ◌⊎◌, refl, sym, ap, ap₂, subst, ◌∙◌, String, List, [], ◌∷◌, ◌++◌, map,
  Option, none, some, if◌then◌else◌, ◌>>=◌, ◌==◌, inl, inr, Float, All, length, length-set, set,
  ltb, lt→ltb, arith, pos, ℤ, some-back, bind-back,
}
use prompt_response.Audit.{Record, Trail, record_in}
use prompt_response.Audit.Slots.{next-lt}
use prompt_response.Usage.{Tracker, record_usage}
use prompt_response.Usage.Totals.{Event}
use prompt_response.Scorer.Picks.{IsNamed}
use prompt_response.Proxy.Serve.{
  Outside, Handler, Router, Request, Meets, Reply, put_audit, put_usage, tenant_or_anonymous,
}
use prompt_response.Proxy.Stream.{new_stream_interceptor}
use prompt_response.Proxy.Forward.{stream_body}
use prompt_response.Proxy.Serve.Handle.{stats_of}
use prompt_response.Proxy.Serve.Effects.{Effect, prompt_tokens}
use prompt_response.Proxy.Serve.Wired.{Clocked, IsReady, IsMap, wired, serve_http-wired}
use prompt_response.Start.{serve_all}

module _ {N : Type 0} ⦃F : Float N⦄ where
  -- The statuses that a reply may have.
  abbrev pub IsReply : Reply N → Type 0
  IsReply (Reply.refused code _) = ((code ≡ 400) ⊎ (code ≡ 405)) ⊎ (code ≡ 503)
  IsReply (Reply.relayed _ code) = code < 500
  IsReply _ = Unit

  -- Of a record in the trail: the request, its tenant and the status.
  abbrev pub decision_of : Record N → String × String × ℕ
  decision_of rec = (rec.request_id, rec.tenant, rec.status_code)

  abbrev pub record_each :
      Option (Trail (Record N)) → List (Record N) → Option (Option (Trail (Record N)))
  record_each t [] = some t
  record_each t (r ∷ rs) = put_audit t r >>= λ t'. record_each t' rs

  record_each-append :
      (t t' : Option (Trail (Record N))) (xs ys : List (Record N))
      → record_each t xs ≡ some t'
      → record_each t (xs ++ ys) ≡ record_each t' ys
  record_each-append t t' [] ys e = ap (λ u. record_each u ys) (some-back e)
  record_each-append t t' (x ∷ xs) ys e =
      let (u, done, so_far) = bind-back (put_audit t x) (λ u. record_each u xs) t' e in
      rw done (record_each-append u t' xs ys so_far)

  put_audit-IsReady :
      (t t' : Option (Trail (Record N))) (rec : Record N)
      → IsReady t
      → put_audit t rec ≡ some t'
      → IsReady t'
  unfolding put_audit record_in
  put_audit-IsReady none t' rec ready e = subst IsReady (some-back e) tt
  put_audit-IsReady (some t) t' rec ready e =
      let next : Trail (Record N) = record {
        records = set t.records t.head rec;
        head = (t.head + 1) % length t.records;
        count = if ltb t.count (length t.records) then t.count + 1 else t.count;
      } in
      let here : some (some next) ≡ some t' =
        sym (rw (lt→ltb t.head (length t.records) ready) refl) ∙ e in
      subst IsReady (some-back here) (
        subst (λ l. (t.head + 1) % length t.records < l) (sym (length-set t.records t.head rec))
          (next-lt t.head (length t.records) ready))

  record_each-IsReady :
      (t t' : Option (Trail (Record N))) (recs : List (Record N))
      → IsReady t
      → record_each t recs ≡ some t'
      → IsReady t'
  record_each-IsReady t t' [] ready e = subst IsReady (some-back e) ready
  record_each-IsReady t t' (r ∷ rs) ready e =
      let (u, done, so_far) = bind-back (put_audit t r) (λ u. record_each u rs) t' e in
      record_each-IsReady u t' rs (put_audit-IsReady t u r ready done) so_far

abbrev count_one : Option Tracker → Event → Option Tracker
count_one none e = none
count_one (some t) e = some (record_usage t e.tenant e.input e.output e.at)

abbrev pub count_each : Option Tracker → List Event → Option Tracker
count_each t [] = t
count_each t (e ∷ es) = count_each (count_one t e) es

count_each-append :
    (t : Option Tracker) (xs ys : List Event)
    → count_each t (xs ++ ys) ≡ count_each (count_each t xs) ys
count_each-append t [] ys = refl
count_each-append t (x ∷ xs) ys = count_each-append (count_one t x) xs ys

put_usage-count_one :
    (t : Option Tracker) (tenant : String) (input output at : ℕ)
    → put_usage t tenant input output at
      ≡ count_one t (record { tenant = tenant; input = pos input; output = pos output; at = at })
unfolding put_usage
put_usage-count_one none tenant input output at = refl
put_usage-count_one (some t) tenant input output at = refl

-- Of an event: the tenant and the counts.
abbrev pub charge_of : Event → String × ℤ × ℤ
charge_of e = (e.tenant, e.input, e.output)

module _ {N B V : Type 0} ⦃F : Float N⦄ (out : Outside B V) where
  -- What a reply to a request leaves in the trail; and whose usage it adds to, with the estimated
  -- tokens of the prompt and the output tokens of the stream that was relayed.
  abbrev pub decided : Request B → Reply N → List (String × String × ℕ)
  decided r (Reply.refused code _) = if code == 503 then (r.request_id, r.tenant, code) ∷ [] else []
  decided r (Reply.relayed _ code) = (r.request_id, r.tenant, code) ∷ []
  decided r _ = []

  abbrev pub streamed : Meets N B → ℕ
  streamed d = (stream_body out.decode_event new_stream_interceptor d.reads).stats.output_tokens

  abbrev pub charged : Request B → Meets N B → Reply N → List (String × ℤ × ℤ)
  charged r d (Reply.relayed _ _) =
      (tenant_or_anonymous r.tenant, pos (prompt_tokens out r), pos (streamed d)) ∷ []
  charged r d _ = []

  -- The same, of all the replies to requests.
  abbrev pub decisions : List (Request B × Meets N B) → List (Reply N) → List (String × String × ℕ)
  decisions [] replies = []
  decisions (a ∷ asked) [] = []
  decisions (a ∷ asked) (reply ∷ replies) = decided a.0 reply ++ decisions asked replies

  abbrev pub charges : List (Request B × Meets N B) → List (Reply N) → List (String × ℤ × ℤ)
  charges [] replies = []
  charges (a ∷ asked) [] = []
  charges (a ∷ asked) (reply ∷ replies) = charged a.0 a.1 reply ++ charges asked replies

module _ {N S C : Type 0} ⦃F : Float N⦄ where
  -- From one state of the router to another: what was recorded, in its order.
  pub record Left (s s' : Router N S C) (ds : List (String × String × ℕ))
      (ts : List (String × ℤ × ℤ)) : Type 0 where
    pub recs : List (Record N)
    pub decide : map decision_of recs ≡ ds
    pub recorded : record_each s.audit recs ≡ some s'.audit
    pub events : List Event
    pub charge : map charge_of events ≡ ts
    pub counted : s'.usage ≡ count_each s.usage events

  Left-nothing : (s s' : Router N S C) → s'.audit ≡ s.audit → s'.usage ≡ s.usage → Left s s' [] []
  Left-nothing s s' a u = record {
    recs = [];
    decide = refl;
    recorded = ap some (sym a);
    events = [];
    charge = refl;
    counted = u;
  }

  Left-same : (s s' : Router N S C) → s' ≡ s → Left s s' [] []
  Left-same s s' e = Left-nothing s s' (ap (λ x. x.audit) e) (ap (λ x. x.usage) e)

  Left-one :
      (s s' : Router N S C) (id tenant : String) (code : ℕ)
      → (rec : Record N) × (rec.request_id ≡ id)
        × (rec.tenant ≡ tenant)
        × (rec.status_code ≡ code)
        × (put_audit s.audit rec ≡ some s'.audit)
      → (events : List Event) → s'.usage ≡ count_each s.usage events
      → Left s s' ((id, tenant, code) ∷ []) (map charge_of events)
  Left-one s s' id tenant code (rec, own_id, own, status, e) events u = record {
    recs = rec ∷ [];
    decide = rw (own_id, own, status) refl;
    recorded = rw e refl;
    events = events;
    charge = refl;
    counted = u;
  }

  Left-append :
      (s t u : Router N S C) (ds es : List (String × String × ℕ)) (ts us : List (String × ℤ × ℤ))
      → Left s t ds ts
      → Left t u es us
      → Left s u (ds ++ es) (ts ++ us)
  Left-append s t u ds es ts us l r = record {
    recs = l.recs ++ r.recs;
    decide = map-append decision_of l.recs r.recs ∙ ap₂ ◌++◌ l.decide r.decide;
    recorded = record_each-append s.audit t.audit l.recs r.recs l.recorded ∙ r.recorded;
    events = l.events ++ r.events;
    charge = map-append charge_of l.events r.events ∙ ap₂ ◌++◌ l.charge r.charge;
    counted =
        r.counted
        ∙ ap (λ x. count_each x r.events) l.counted
        ∙ sym (count_each-append s.usage l.events r.events);
  }

module _ {N S C B V : Type 0} ⦃F : Float N⦄ (out : Outside B V) (h : Handler N S C V)
    (r : Request B) (d : Meets N B) where
  Effect-Left :
      (s s' : Router N S C) (reply : Reply N)
      → Effect out h r d s (reply, s')
      → IsReply reply × Left s s' (decided out r reply) (charged out r d reply)
  unfolding stats_of
  Effect-Left s s' Reply.health e = (tt, Left-same s s' e)
  Effect-Left s s' (Reply.readiness _) e = (tt, Left-same s s' e)
  Effect-Left s s' (Reply.models _) e = (tt, Left-same s s' e)
  Effect-Left s s' (Reply.status _) e =
      (tt, Left-nothing s s' (ap (λ x. x.audit) e) (ap (λ x. x.usage) e))
  Effect-Left s s' (Reply.audit _) e = (tt, Left-same s s' e)
  Effect-Left s s' (Reply.usage _) e = (tt, Left-same s s' e)
  Effect-Left s s' (Reply.refused code name) (inl (bad, e)) = (
    inl bad,
    elim bad [ inl is400 ↦ rw is400 (Left-same s s' e) | inr is405 ↦ rw is405 (Left-same s s' e) ],
  )
  Effect-Left s s' (Reply.refused code name) (inr (is503, store, usage, sink, audited)) =
      (inr is503, rw is503 (Left-one s s' r.request_id r.tenant 503 audited [] usage))
  Effect-Left s s' (Reply.relayed rep code) (below, audited, (u, sink)) = (
    below,
    Left-one s s' r.request_id r.tenant code audited
        (record {
          tenant = tenant_or_anonymous r.tenant;
          input = pos (prompt_tokens out r);
          output = pos (stats_of out h r d).output_tokens;
          at = d.used_at;
        }
          ∷ [])
        (u ∙ put_usage-count_one s.usage _ (prompt_tokens out r) _ d.used_at),
  )

module _ {N S B V : Type 0} ⦃F : Float N⦄ (out : Outside B V) (h : Handler N S (Clocked N) V) where
  -- When the replicas have ids, a write to the trail does not panic, and no request's body is read as a
  -- nil map: there is one reply for each request, and the trail and the tracker are left as the replies
  -- say.
  pub serve_all_lem :
      (asked : List (Request B × Meets N B)) (s : Router N S (Clocked N))
      → All IsNamed h.replicas
      → IsReady s.audit
      → All (λ (a : Request B × Meets N B). IsMap out a.0) asked
      → (replies : List (Reply N)) × (s' : Router N S (Clocked N)) × (serve_all out h s asked
          ≡ some (replies, s'))
        × (length replies ≡ length asked)
        × All IsReply replies
        × Left s s' (decisions out asked replies) (charges out asked replies)
  unfolding serve_all
  serve_all_lem [] s named ready maps = ([], s, refl, refl, tt, Left-same s s refl)
  serve_all_lem ((r, d) ∷ rest) s named ready maps =
      let ((reply, s₁), done, effect) = serve_http-wired out h r d s named ready maps.0 in
      let (fine, left) = Effect-Left out (wired out h r d) r d s s₁ reply effect in
      let (replies, s', all, same, fines, lefts) =
        serve_all_lem rest s₁ named
          (record_each-IsReady s.audit s₁.audit left.recs ready left.recorded) maps.1 in
      (
        reply ∷ replies,
        s',
        rw done (rw all refl),
        omega (arith, same),
        (fine, fines),
        Left-append s s₁ s' _ _ _ _ left lefts,
      )
