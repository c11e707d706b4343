-- ===== src/Tests/Trails.antt =====
-- A concrete audit trail.
use prompt_response.Common.{ℕ, ◌≡◌, [], ◌∷◌, some, arith, take, min, reverse, string_eq}
use prompt_response.Audit.{Trail, new_trail, recent, record_all}
use prompt_response.Audit.Newest.{recent_newest}

recent_newest_example :
    (t : Trail ℕ) × (record_all 0 (new_trail 0 3) (1 ∷ 2 ∷ 3 ∷ 4 ∷ []) ≡ some t)
    × (recent 0 t 2 ≡ take (min 2 3) (reverse (1 ∷ 2 ∷ 3 ∷ 4 ∷ [])))
recent_newest_example = recent_newest 0 3 2 (1 ∷ 2 ∷ 3 ∷ 4 ∷ []) (omega arith)
