-- ===== src/RateLimit/Clients.antt =====
-- The middleware: whom it limits, and that clients are kept apart.

use prompt_response.Common.{
  ℕ, ◌≡◌, refl, String, Option, if◌then◌else◌, lookup-insert, string_eq, str_eq, Bool-cases, inl,
  inr,
}
use prompt_response.RateLimit.{
  unit, allow, Registry, get_or_create, allow_key, limit, retry_after, Request, skip_path,
  client_key, pass, pass_with, too_many, format_0f, middleware,
}

-- After a call for one key, another key's bucket is what it was, and this key's bucket is the one
-- that the call left.
pub bucket_after :
    (reg : Registry) (key j : String) (now later : ℕ)
    → get_or_create (allow_key reg key now).2 j later ≡ (
        if str_eq key j
        then (allow (get_or_create reg key now) now).2
        else get_or_create reg j later)
unfolding allow_key get_or_create
bucket_after reg key j now later = elim (Bool-cases (str_eq key j)) [
  | inl same ↦
      rw (lookup-insert key j (allow (get_or_create reg key now) now).2 reg.buckets) (rw same)
  | inr other ↦
      rw (lookup-insert key j (allow (get_or_create reg key now) now).2 reg.buckets) (rw other)
]

-- Health probes pass with no headers, and change nothing. Any other request is charged to its
-- client's bucket alone: it passes with the headers if that bucket permits it, and is refused with
-- the headers and the wait if not.
pub middleware_lem :
    (split : String → Option String) (reg : Registry) (r : Request) (now : ℕ)
    → let key = client_key split r in
      let (ok, remaining, b) = allow (get_or_create reg key now) now in
      let shown = format_0f (limit reg) 1000 in
      let left = format_0f remaining unit in
      ((middleware split reg r now).0 ≡ (
        if skip_path r.path
        then pass
        else if ok
        then pass_with shown left
        else too_many shown left (retry_after reg)))
      × ((j : String)
          → (later : ℕ)
          → get_or_create (middleware split reg r now).1 j later ≡ (
              if skip_path r.path
              then get_or_create reg j later
              else if str_eq key j
              then b
              else get_or_create reg j later))
unfolding middleware allow_key
middleware_lem split reg r now = elim (Bool-cases (skip_path r.path)) [
  | inl skipped ↦ rw skipped (refl, λ j later. refl)
  | inr charged ↦
      rw charged (elim (Bool-cases (allow (get_or_create reg (client_key split r) now) now).0) [
        | inl permitted ↦
            rw permitted (refl, λ j later. bucket_after reg (client_key split r) j now later)
        | inr refused ↦
            rw refused (refl, λ j later. bucket_after reg (client_key split r) j now later)
      ])
]
