-- ===== src/Tests/Polling.antt =====
-- Concrete replicas that fail and recover, and a metrics page.
use prompt_response.Common.{
  All, map, ℕ, ◌≡◌, refl, Bool, true, false, not, String, List, [], ◌∷◌, Option, none, some, leb,
  ◌&&◌, ◌+◌, ◌*◌, ◌-◌, if◌then◌else◌, ℤ, pos, codes, lookup_or, insert, string_eq,
}
use prompt_response.Tests.Num.{milli}
use prompt_response.Tests.Routing.{replica}
use prompt_response.Poller.{
  Poller, zero_state, new_poller, failures_of, state_of, poll_tick, apply_poll, record_failure,
}
use prompt_response.Poller.Consecutive.{
  check_all, poll_all, failed_since, unhealthy_after_three, polling_never_recovers,
}
use prompt_response.Poller.Metrics.{is_space, parse_metrics}
use prompt_response.Poller.Metrics.Readings.{
  Reads, last_word, one_word, last_reading, parse_metrics-Reads,
}

abbrev checks : List (String × Bool)
checks = ("r2", false) ∷ ("r1", true) ∷ ("r2", false) ∷ ("r2", false) ∷ ("r1", false) ∷ []

unhealthy_after_three_example :
    let p =
      check_all (new_poller (replica "r1" "small" 7 ∷ (replica "r2" "large" 70 ∷ [])) 0) checks in
    (failures_of p "r2" ≡ failed_since "r2" 0 checks)
    × ((state_of p "r2").healthy ≡ not (leb 3 (failed_since "r2" 0 checks)))
unhealthy_after_three_example =
    unhealthy_after_three (replica "r1" "small" 7 ∷ []) [] (replica "r2" "large" 70) 0 checks

abbrev one_down : Poller ℤ
one_down = record { states = ("r2", zero_state) ∷ []; failures = ("r2", 3) ∷ []; interval = 1 }

abbrev after_failed_poll : Poller ℤ
after_failed_poll = record {
  states = ("r2", zero_state) ∷ [];
  failures = ("r2", 4) ∷ [];
  interval = 1;
}

polling_never_recovers_example : (state_of after_failed_poll "r2").healthy ≡ false
unfolding poll_all poll_tick lookup_or apply_poll record_failure insert
polling_never_recovers_example =
    polling_never_recovers (("r2", none) ∷ []) one_down after_failed_poll "r2" refl refl

-- A parser of decimal digits.
abbrev digits : ℕ → List ℕ → Option ℤ
digits n [] = some (pos (1000 * n))
digits n (c ∷ cs) = if leb 48 c && leb c 57 then digits (10 * n + (c - 48)) cs else none

abbrev page : List (List ℕ × ℤ)
page =
    (codes "# HELP 4", pos 4000)
    ∷ (codes "vllm:num_requests_waiting 5 3", pos 3000)
    ∷ (codes "vllm:num_requests_running 5 abc", pos 0)
    ∷ (codes "other", pos 0)
    ∷ []

page-Reads : All (λ (p : List ℕ × ℤ). Reads (digits 0) p.0 p.1) page
unfolding is_space
page-Reads =
    let note = last_word b'#' (codes " HELP") b' ' b'4' [] [] refl refl (refl, tt) tt in
    let waiting =
      last_word b'v' (codes "llm:num_requests_waiting 5") b' ' b'3' [] [] refl refl (refl, tt) tt in
    let running =
      last_word b'v' (codes "llm:num_requests_running 5") b' ' b'a' (codes "bc") [] refl refl
        (refl, (refl, (refl, tt))) tt in
    let other = one_word (codes "other") [] (refl, (refl, (refl, (refl, (refl, tt))))) tt in
    (note, (waiting, (running, (other, tt))))

parse_metrics-Reads_example :
    let s = parse_metrics (digits 0) (map (λ (p : List ℕ × ℤ). p.0) page) in
    (s.queue_depth
      ≡ last_reading (digits 0) milli.trunc (codes "vllm:num_requests_waiting") (pos 0) page)
    × (s.running
        ≡ last_reading (digits 0) milli.trunc (codes "vllm:num_requests_running") (pos 0) page)
    × (s.kv_cache_util
        ≡ last_reading
            (digits 0)
            (λ v. v)
            (codes "vllm:gpu_cache_usage_perc")
            (milli.of_int 0)
            page)
    × (s.healthy ≡ false)
parse_metrics-Reads_example = parse_metrics-Reads (digits 0) page page-Reads
