-- ===== src/Auth/Keys.antt =====
-- Whom the middleware lets through, and what of a key is logged.
use prompt_response.Common.{
  ℕ, ◌/◌, ◌≡◌, refl, ap, ◌∙◌, String, List, [], ◌∷◌, Option, none, some, if◌then◌else◌, leb, length,
  length-take, list_eq, lookup, insert, lookup-insert, Bool-cases, Option-cases, inl, inr, arith,
}
use prompt_response.Auth.{
  bytes_eq, KeyEntry, Keystore, add_keys, new_keystore, validate, Request, skip_path, extract_key,
  Verdict, pass, pass_as, key_required, invalid_key, found_tenant, check_key, middleware,
  safe_prefix,
}

-- The tenant of the last entry with a key, or what there was before.
abbrev pub last_tenant : List ℕ → Option String → List KeyEntry → Option String
last_tenant key t [] = t
last_tenant key t (e ∷ es) = last_tenant key (if list_eq e.key key then some e.tenant else t) es

add_keys-lookup :
    (es : List KeyEntry) (ks : Keystore) (key : List ℕ)
    → lookup key (add_keys ks es) ≡ last_tenant key (lookup key ks) es
unfolding add_keys
add_keys-lookup [] ks key = refl
add_keys-lookup (e ∷ es) ks key =
    add_keys-lookup es (insert e.key e.tenant ks) key
    ∙ ap (λ t. last_tenant key t es) (lookup-insert e.key key e.tenant ks)

-- Who gets through, by the entries of the configuration.
abbrev pub verdict_of : List KeyEntry → Request → Verdict
verdict_of es r =
    if skip_path r.path
    then pass
    else if list_eq (extract_key r) []
    then key_required
    else elim (last_tenant (extract_key r) none es) [ none ↦ invalid_key | some t ↦ pass_as t ]

check_key-new_keystore :
    (es : List KeyEntry) (key : List ℕ)
    → check_key (new_keystore es) key ≡ (
        if list_eq key []
        then key_required
        else elim (last_tenant key none es) [ none ↦ invalid_key | some t ↦ pass_as t ])
unfolding new_keystore validate check_key found_tenant lookup list_eq
check_key-new_keystore es [] = refl
check_key-new_keystore es (c ∷ cs) =
    rw (add_keys-lookup es [] (c ∷ cs)) (elim (Option-cases (last_tenant (c ∷ cs) none es)) [
      | inl missing ↦ rw missing refl
      | inr (t, found) ↦ rw found refl
    ])

-- The middleware over a store of the configured keys lets health probes pass, refuses a request
-- without a key, and else lets it pass exactly if its key is configured, as the tenant of the last
-- entry that has this key.
pub middleware-new_keystore :
    (es : List KeyEntry) (r : Request) → middleware (new_keystore es) r ≡ verdict_of es r
unfolding middleware
middleware-new_keystore es r = elim (Bool-cases (skip_path r.path)) [
  | inl skipped ↦ rw skipped refl
  | inr charged ↦ rw charged (check_key-new_keystore es (extract_key r))
]

-- No more than eight bytes of a key are logged; and of a key of at most eight bytes no more than half.
length-safe_prefix :
    (key : List ℕ) → length (safe_prefix key) ≡ (if leb (length key) 8 then length key / 2 else 8)
unfolding safe_prefix
length-safe_prefix key = ground (arith, length-take (length key / 2) key, length-take 8 key)
