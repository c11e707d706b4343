-- ===== src/Proxy/Pages/Audited.antt =====
-- What the audit page shows, whatever limit a query asks for.
use prompt_response.Common.{
  ℕ, ◌≤◌, ◌<◌, min, ◌≡◌, ◌≢◌, ap, true, String, List, Option, some, none, take, reverse, ℤ, pos,
  negsuc, str_eq, str_eq_iff, refl, arith,
}
use prompt_response.Audit.{Trail, new_trail, record_all}
use prompt_response.Audit.Newest.{recent_newest}
use prompt_response.Proxy.Pages.{given_limit, audit_limit, handle_audit}

given_limit-positive : (n : Option ℤ) → 0 < given_limit n
unfolding given_limit
given_limit-positive none = omega arith
given_limit-positive (some (negsuc n)) = omega arith
given_limit-positive (some (pos n)) = ground arith

audit_limit-within :
    (atoi : String → Option ℤ) (limit : String)
    → (0 < audit_limit atoi limit) × (audit_limit atoi limit ≤ 200)
unfolding audit_limit
audit_limit-within atoi limit = ground (arith, given_limit-positive (atoi limit))

-- After any decisions are recorded in a new trail whose capacity is not zero, the audit page lists the
-- newest of them, newest first, as many as its limit and the capacity hold; the limit is 50 without a
-- query, or with one that is not a positive number, and else that number, but never above 200.
pub handle_audit_lem :
    {R : Type 0} (blank : R) (capacity : ℕ) (rs : List R) (atoi : String → Option ℤ)
    (limit : String)
    → 0 < capacity
    → (t : Trail R) × (record_all blank (new_trail blank capacity) rs ≡ some t)
      × (n : ℕ) × (handle_audit blank atoi (some t) limit
          ≡ (take (min n capacity) (reverse rs), true))
      × (0 < n)
      × (n ≤ 200)
      × (str_eq limit "" ≡ true → n ≡ 50)
      × (atoi limit ≡ none → n ≡ 50)
      × ((k : ℕ) → limit ≢ "" → atoi limit ≡ some (pos k) → 0 < k → n ≡ min k 200)
unfolding handle_audit audit_limit given_limit
handle_audit_lem blank capacity rs atoi limit h =
    let (t, recorded, shown) = recent_newest blank capacity (audit_limit atoi limit) rs h in
    let (above, below) = audit_limit-within atoi limit in
    (
      t,
      recorded,
      audit_limit atoi limit,
      ap (λ l. (l, true)) shown,
      above,
      below,
      λ e. rw e refl,
      λ e. rw e (ground arith),
      λ k ne e above. rw e (ground (arith, str_eq_iff limit "")),
    )
