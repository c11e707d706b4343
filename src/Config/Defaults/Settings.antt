-- ===== src/Config/Defaults/Settings.antt =====
-- What the settings are like once the defaults are filled in and `validate` has passed.
use prompt_response.Common.{
  ℕ, ◌<◌, ◌*◌, ◌^◌, ◌≡◌, refl, Bool, true, false, ◌&&◌, none, Float, ℤ, pos, negsuc, pos_part,
  leb_ℤ, ltb_ℤ, inl, inr, ◌⊎◌, arith,
}
use prompt_response.Config.{Config}
use prompt_response.Config.Check.{validate, check_settings}
use prompt_response.Config.Defaults.{apply_defaults, or_int}
use prompt_response.Config.Replicas.Distinct.{refuse-none, validate-Checked}

abbrev pub IsPositive : ℤ → Type 0
IsPositive a = 0 < pos_part a

over_zero : (a : ℤ) → leb_ℤ a (pos 0) ≡ false → IsPositive a
over_zero (pos n) e = ground arith
over_zero (negsuc n) e = ground arith

if_enabled : (on : Bool) (a : ℤ) → (on && leb_ℤ a (pos 0)) ≡ false → (on ≡ false) ⊎ IsPositive a
if_enabled false a e = inl refl
if_enabled true a e = inr (over_zero a e)

or_int-IsPositive :
    (a : ℤ) (n : ℕ) → 0 < n → ltb_ℤ (or_int a n) (pos 0) ≡ false → IsPositive (or_int a n)
or_int-IsPositive (pos m) n h e = ground arith
or_int-IsPositive (negsuc m) n h e = ground arith

module _ {N : Type 0} ⦃F : Float N⦄ where
  -- A configuration that passes `validate` after its defaults are filled in has a positive window,
  -- minimum of samples and stall timeout; and a positive audit buffer and burst if the audit trail
  -- and the rate limit are enabled.
  pub apply_defaults_lem :
      (raw : Config N)
      → validate (apply_defaults raw) ≡ none
      → let cfg = apply_defaults raw in
        IsPositive cfg.circuit.window_size
        × IsPositive cfg.circuit.min_samples
        × IsPositive cfg.stall_timeout
        × ((cfg.audit_enabled ≡ false) ⊎ IsPositive cfg.audit_buffer)
        × ((cfg.rate_limit.enabled ≡ false) ⊎ IsPositive cfg.rate_limit.burst)
  unfolding apply_defaults check_settings
  apply_defaults_lem raw e =
      let cfg = apply_defaults raw in
      let (redis, e₁) = refuse-none _ _ _ (validate-Checked cfg e).1 in
      let (keys, e₂) = refuse-none _ _ _ e₁ in
      let (rate, e₃) = refuse-none _ _ _ e₂ in
      let (burst, e₄) = refuse-none _ _ _ e₃ in
      let (audit, e₅) = refuse-none _ _ _ e₄ in
      let (threshold, e₆) = refuse-none _ _ _ e₅ in
      let (queue, e₇) = refuse-none _ _ _ e₆ in
      let (weights, e₈) = refuse-none _ _ _ e₇ in
      let (errors, e₉) = refuse-none _ _ _ e₈ in
      let (window, f₁) = refuse-none _ _ _ e₉ in
      let (samples, f₂) = refuse-none _ _ _ f₁ in
      let (stall, f₃) = refuse-none _ _ _ f₂ in
      (
        over_zero cfg.circuit.window_size window,
        over_zero cfg.circuit.min_samples samples,
        or_int-IsPositive raw.stall_timeout (15 * 10 ^ 9) (omega arith) stall,
        if_enabled cfg.audit_enabled cfg.audit_buffer audit,
        if_enabled cfg.rate_limit.enabled cfg.rate_limit.burst burst,
      )
