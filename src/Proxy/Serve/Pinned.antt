-- ===== src/Proxy/Serve/Pinned.antt =====
-- The store after a completion: that of a turn whose replica the retry loop finds.
use prompt_response.Common.{
  some-back, bind-back, ℕ, ◌+◌, ◌≤◌, ◌≡◌, sym, ap, ◌∙◌, String, List, Option, none, some, Float,
  ◌≤ℤ◌,
}
use prompt_response.Types.{ModelTier, Replica, ConvState}
use prompt_response.Types.Tiers.{priority_of}
use prompt_response.Store.Expiry.{IsFaithful}
use prompt_response.Proxy.Messages.{Message}
use prompt_response.Proxy.Retry.{Retried}
use prompt_response.Proxy.Turn.{
  Classified, classified_or_small, Turn, lock_tier, tier_of_turn, serve_turn, take_turn,
}
use prompt_response.Proxy.Turn.Lock.{take_turn-escalates}
use prompt_response.Proxy.Serve.{
  Outside, Handler, Router, Request, ClassRequest, ClassifyResponse, Meets, Reply, answer_or_small,
  put_audit,
}
use prompt_response.Proxy.Serve.Handle.{
  judge_stream, attempts_of, conclude, complete, turn_of, class_request,
}

-- The classifier's answer, as a turn takes it.
abbrev pub as_classified : {N : Type 0} → ClassifyResponse N → Option (Classified N)
as_classified a = some (record { tier = a.tier; score = a.score })

abbrev pub replica_of : {N : Type 0} → Option (Replica N × ℕ) → Option (Replica N)
replica_of none = none
replica_of (some (rep, code)) = some rep

-- The replica whose response the retry loop has found.
abbrev pub served_by : {N C : Type 0} → Option (Retried N C) → Option (Replica N)
served_by none = none
served_by (some tried) = replica_of tried.resp

module _ {N S C B V : Type 0} ⦃F : Float N⦄ (out : Outside B V) (h : Handler N S C V)
    (r : Request B) (d : Meets N B) where
  -- The store of the router, and the replica of a reply.
  abbrev pub replied_by : Reply N → Option (Replica N)
  replied_by (Reply.relayed rep code) = some rep
  replied_by _ = none

  conclude-served :
      (s : Router N S C) (t : Turn) (q : ClassRequest) (a : ClassifyResponse N) (tier : ModelTier)
      (excluded : List String) (c : C) (resp : Option (Replica N × ℕ)) (reply : Reply N)
      (s' : Router N S C)
      → conclude out h r d s t q a tier excluded c resp ≡ some (reply, s')
      → (s'.store
          ≡ serve_turn h.store h.replicas h.affinity_ttl s.store t
              (as_classified a)
              tier
              (replica_of resp))
        × (replica_of resp ≡ replied_by reply)
  unfolding conclude serve_turn
  conclude-served s t q a tier excluded c none reply s' e =
      let (audit, _, got) = bind-back (put_audit s.audit _) _ (reply, s') e in
      (ap (λ p. p.1.store) (sym (some-back got)), ap (λ p. replied_by p.0) (some-back got))
  conclude-served s t q a tier excluded c (some (rep, code)) reply s' e =
      let (c', _, e₁) = bind-back (judge_stream out h r d c rep) _ (reply, s') e in
      let (audit, _, got) = bind-back (put_audit s.audit _) _ (reply, s') e₁ in
      (ap (λ p. p.1.store) (sym (some-back got)), ap (λ p. replied_by p.0) (some-back got))

  -- The class of a completion, and its tier.
  abbrev pub class_of : Router N S C → List Message → ClassifyResponse N
  class_of s ms = answer_or_small (d.classify (class_request out h r d s.store ms))

  abbrev pub serve_by : Router N S C → B → List Message → ModelTier → Option (Replica N)
  serve_by s body ms tier =
      served_by (attempts_of out h r d s body (turn_of out h r d ms).prefix_hash tier)

  complete-served :
      (s : Router N S C) (body : B) (ms : List Message) (reply : Reply N) (s' : Router N S C)
      → complete out h r d s body ms ≡ some (reply, s')
      → let t = turn_of out h r d ms in
        let c = as_classified (class_of s ms) in
        (s'.store ≡ take_turn h.store h.replicas h.affinity_ttl s.store t c (serve_by s body ms))
        × (serve_by s body ms (tier_of_turn h.store h.replicas h.affinity_ttl s.store t c)
            ≡ replied_by reply)
  unfolding complete take_turn tier_of_turn answer_or_small classified_or_small turn_of
  complete-served s body ms reply s' e =
      let t = turn_of out h r d ms in
      let a = class_of s ms in
      let tier =
        lock_tier h.replicas (h.store.get_conversation s.store t.conv_hash d.read_at) a.tier in
      let (tried, found, got) =
        bind-back (attempts_of out h r d s body t.prefix_hash tier) _ (reply, s') e in
      let (store, rep) =
        conclude-served s t (class_request out h r d s.store ms) a tier tried.excluded tried.circuit
          tried.resp reply s' got in
      let picked : serve_by s body ms tier ≡ replica_of tried.resp = ap served_by found in
      (
        store
            ∙ ap (serve_turn h.store h.replicas h.affinity_ttl s.store t (as_classified a) tier)
                (sym picked),
        picked ∙ rep,
      )

  -- In a store that loses nothing before its time: when a completion is relayed in a conversation
  -- that was pinned as the handler read the store, then until the lifetime has passed since the
  -- handler wrote to it, the conversation is pinned to a tier whose priority is at least that of the
  -- old pin and at least that of the tier that the classifier gave (the small one if it failed).
  pub complete-escalates :
      IsFaithful h.store
      → (s : Router N S C) (body : B) (ms : List Message) (rep : Replica N) (code : ℕ)
        (s' : Router N S C) (pin : ConvState) (later : ℕ)
      → complete out h r d s body ms ≡ some (Reply.relayed rep code, s')
      → h.store.get_conversation s.store (turn_of out h r d ms).conv_hash d.read_at ≡ some pin
      → later ≤ d.written_at + h.affinity_ttl
      → (new : ConvState) × (h.store.get_conversation s'.store
            (turn_of out h r d ms).conv_hash
            later
          ≡ some new)
        × (priority_of h.replicas pin.tier ≤ℤ priority_of h.replicas new.tier)
        × (priority_of h.replicas (class_of s ms).tier ≤ℤ priority_of h.replicas new.tier)
  unfolding turn_of answer_or_small classified_or_small
  complete-escalates faithful s body ms rep code s' pin later done pinned alive =
      let t = turn_of out h r d ms in
      let c = as_classified (class_of s ms) in
      let (store, served) = complete-served s body ms (Reply.relayed rep code) s' done in
      let (new, reads, above_pin, above_class) =
        take_turn-escalates h.store faithful h.replicas h.affinity_ttl s.store t c
          (serve_by s body ms) pin rep later pinned served alive in
      (
        new,
        ap (λ z. h.store.get_conversation z t.conv_hash later) store ∙ reads,
        above_pin,
        above_class,
      )
