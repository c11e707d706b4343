-- ===== src/Config/Check.antt =====
-- internal/config/config.go, `validate`: the first problem it meets, or `none` for its nil error.
use prompt_response.Common.{
  Bool, true, false, not, ◌&&◌, ◌||◌, String, List, [], ◌∷◌, Option, none, some, if◌then◌else◌,
  str_eq, ◌==◌, Float, ℤ, pos, ltb_ℤ, leb_ℤ, eqb_ℤ,
}
use prompt_response.Types.{RoutingRule}
use prompt_response.Config.{Config, ModelTier, ReplicaConfig, UsagePostgres}

-- The errors, in the order in which `validate` looks for them; their texts are left out.
pub data Problem : Type 0 where
  no_tier no_name bad_priority no_models shared_priority duplicate_name : Problem
  two_fallbacks bad_score bad_reasoning bad_domain bad_creativity bad_constraint : Problem
  no_id no_url no_model no_fallback no_redis no_keys bad_rate bad_burst bad_audit : Problem
  bad_threshold bad_queue bad_weights bad_error_threshold bad_window bad_samples : Problem
  bad_stall bad_done bad_frequency bad_presence no_dsn bad_flush bad_batch : Problem

-- `if c { return problem }`, and what follows it.
unfoldable pub refuse : Bool → Problem → Option Problem → Option Problem
refuse c problem next = if c then some problem else next

has_priority : List ℤ → ℤ → Bool
has_priority [] p = false
has_priority (q ∷ qs) p = eqb_ℤ q p || has_priority qs p

unfoldable pub has_name : List String → String → Bool
has_name [] n = false
has_name (m ∷ ms) n = str_eq m n || has_name ms n

unfoldable pub lacks_models : List ReplicaConfig → Bool
lacks_models [] = true
lacks_models (m ∷ ms) = false

-- The loop over the replicas of a tier.
unfoldable pub check_models : List ReplicaConfig → Option Problem → Option Problem
unfolding refuse
check_models [] next = next
check_models (m ∷ ms) next =
    let rest = check_models ms next in
    refuse (str_eq m.id "") no_id
      (refuse (str_eq m.url "") no_url (refuse (str_eq m.model "") no_model rest))

check_postgres : UsagePostgres → Option Problem
check_postgres p = refuse (p.enabled && str_eq p.dsn "") no_dsn (
    refuse (p.enabled && ltb_ℤ p.flush_interval (pos 0)) bad_flush (
      refuse (p.enabled && (ltb_ℤ p.batch_size (pos 0) || ltb_ℤ p.buffer_size (pos 0))) bad_batch
        none))

module _ {N : Type 0} ⦃F : Float N⦄ where
  -- Both are set, and the first is not below the second.
  crossed : Option N → Option N → Bool
  crossed none hi = false
  crossed (some lo) none = false
  crossed (some lo) (some hi) = F.le hi lo

  -- The loop over the rules of a tier.
  unfoldable pub check_rules : List (RoutingRule N) → Option Problem → Option Problem
  unfolding crossed
  check_rules [] next = next
  check_rules (r ∷ rs) next =
      let rest = check_rules rs next in
      refuse (crossed r.min_score r.max_score) bad_score (
        refuse (crossed r.min_reasoning r.max_reasoning) bad_reasoning (
          refuse (crossed r.min_domain r.max_domain) bad_domain (
            refuse (crossed r.min_creativity r.max_creativity) bad_creativity
              (refuse (crossed r.min_constraint r.max_constraint) bad_constraint rest))))

  -- The loop over the tiers: the priorities and the names so far, and whether a fallback was met.
  unfoldable pub check_tiers :
      List ℤ → List String → Bool → List (ModelTier N) → Option Problem → Option Problem
  unfolding has_priority
  check_tiers ps ns fallback [] next = refuse (not fallback) no_fallback next
  check_tiers ps ns fallback (t ∷ ts) next =
      let rest =
        check_tiers (t.priority ∷ ps) (t.name ∷ ns) (fallback || t.routing.fallback) ts next in
      refuse (str_eq t.name "") no_name (
        refuse (ltb_ℤ t.priority (pos 0)) bad_priority (
          refuse (lacks_models t.models) no_models (
            refuse (has_priority ps t.priority) shared_priority (
              refuse (has_name ns t.name) duplicate_name (
                refuse (t.routing.fallback && fallback) two_fallbacks
                  (check_rules t.routing.rules (check_models t.models rest)))))))

  unfoldable pub outside : N → N → N → Bool
  outside lo hi a = F.lt a lo || F.lt hi a

  penalty_out : Option N → Bool
  unfolding outside
  penalty_out none = false
  penalty_out (some a) = outside (F.neg (F.of_int 2)) (F.of_int 2) a

  below_zero : N → Bool
  below_zero a = F.lt a (F.of_int 0)

  -- The part of `validate` from the address of Redis on.
  unfoldable pub check_settings : Config N → Option Problem
  unfolding outside penalty_out below_zero check_postgres
  check_settings cfg = refuse (str_eq cfg.redis_addr "") no_redis (
      refuse (cfg.auth_enabled && (cfg.auth_keys == 0)) no_keys (
        refuse (cfg.rate_limit.enabled && F.le cfg.rate_limit.requests_per_minute (F.of_int 0))
          bad_rate
          (refuse (cfg.rate_limit.enabled && leb_ℤ cfg.rate_limit.burst (pos 0)) bad_burst (
            refuse (cfg.audit_enabled && leb_ℤ cfg.audit_buffer (pos 0)) bad_audit (
              refuse (outside (F.of_int 0) (F.of_int 1) cfg.threshold) bad_threshold (
                refuse (F.le cfg.max_queue (F.of_int 0)) bad_queue (
                  refuse
                    (below_zero cfg.weights.cache_affinity
                      || (below_zero cfg.weights.queue_depth
                          || (below_zero cfg.weights.kv_cache_pressure
                              || (below_zero cfg.weights.baseline
                                  || below_zero cfg.weights.miss_penalty))))
                    bad_weights
                    (refuse (outside (F.of_int 0) (F.of_int 1) cfg.circuit.error_threshold)
                      bad_error_threshold
                      (refuse (leb_ℤ cfg.circuit.window_size (pos 0)) bad_window (
                        refuse (leb_ℤ cfg.circuit.min_samples (pos 0)) bad_samples (
                          refuse (ltb_ℤ cfg.stall_timeout (pos 0)) bad_stall (
                            refuse (ltb_ℤ cfg.done_timeout (pos 0)) bad_done (
                              refuse (penalty_out cfg.frequency_penalty) bad_frequency (
                                refuse (penalty_out cfg.presence_penalty) bad_presence
                                  (check_postgres cfg.postgres)))))))))))))))

  -- At least one tier is required.
  unfoldable pub check_listed : List (ModelTier N) → Option Problem → Option Problem
  check_listed [] next = some no_tier
  check_listed (t ∷ ts) next = check_tiers [] [] false (t ∷ ts) next

  unfoldable pub validate : Config N → Option Problem
  unfolding check_listed
  validate cfg = check_listed cfg.models (check_settings cfg)
