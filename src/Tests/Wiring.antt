-- ===== src/Tests/Wiring.antt =====
-- Calls of a registry with the shortest window.
use prompt_response.Common.{ℕ, ◌≡◌, String, List, [], ◌∷◌, some, ℤ, pos, arith, string_eq}
use prompt_response.Tests.Num.{milli}
use prompt_response.Circuit.Registry.{Config, Registry, new_registry}
use prompt_response.Circuit.Registry.Sound.{
  IsSound, Call, asked, failed, stated, rated, calls, calls-new_registry,
}

abbrev shortest : Config ℤ
shortest = record { error_threshold = pos 500; window_size = 10; cooldown = 100; min_samples = 1 }

abbrev sequence : List (Call × String × ℕ)
sequence =
    (asked, "r1", 5)
    ∷ (failed, "r1", 7)
    ∷ (rated, "r1", 8)
    ∷ (stated, "r3", 20)
    ∷ (asked, "r1", 120)
    ∷ []

calls-new_registry_example :
    (reg : Registry ℤ) × (calls (new_registry shortest) sequence ≡ some reg) × IsSound reg
calls-new_registry_example = calls-new_registry shortest sequence (omega arith)
