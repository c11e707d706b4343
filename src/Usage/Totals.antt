-- ===== src/Usage/Totals.antt =====
-- The counters of a tenant are the sums over its own requests, and resets forget exactly what they
-- name.
use prompt_response.Common.{
  ℕ, ◌+◌, ◌%◌, ◌≡◌, refl, ◌∙◌, String, List, [], ◌∷◌, Option, none, some, if◌then◌else◌, str_eq,
  str_eq_iff, lookup, lookup-insert, lookup-delete, length, string_eq, ℤ, arith, Bool-cases, inl,
  inr, Option-cases,
}
use prompt_response.Usage.{
  i64_mod, Usage, Tracker, clamp, add_to, fresh_or, record_usage, get, reset,
}

-- A call of `Record`.
pub record Event : Type 0 where
  pub tenant : String
  pub input : ℤ
  pub output : ℤ
  pub at : ℕ

unfoldable pub record_events : Tracker → List Event → Tracker
record_events t [] = t
record_events t (e ∷ es) = record_events (record_usage t e.tenant e.input e.output e.at) es

-- The calls for one tenant.
abbrev pub own : String → List Event → List Event
own tenant [] = []
own tenant (e ∷ es) = if str_eq e.tenant tenant then e ∷ own tenant es else own tenant es

abbrev pub sum_of : (Event → ℕ) → List Event → ℕ
sum_of f [] = 0
sum_of f (e ∷ es) = f e + sum_of f es

abbrev pub last_at : ℕ → List Event → ℕ
last_at t [] = t
last_at t (e ∷ es) = last_at e.at es

abbrev pub input_of : Event → ℕ
input_of e = clamp e.input

abbrev pub output_of : Event → ℕ
output_of e = clamp e.output

-- The entry of a tenant with these calls: none without a call, and else the sums of its counts, the
-- number of its calls, and the times of its first and its last one.
abbrev pub entry_of : List Event → Option Usage
entry_of [] = none
entry_of (e ∷ es) = some (record {
  input_tokens = sum_of input_of (e ∷ es) % i64_mod;
  output_tokens = sum_of output_of (e ∷ es) % i64_mod;
  requests = length (e ∷ es) % i64_mod;
  first_seen = e.at;
  last_seen = last_at e.at es;
})

add_all : Option Usage → List Event → Option Usage
add_all u [] = u
add_all u (e ∷ es) =
    add_all (some (add_to (fresh_or e.at u) (clamp e.input) (clamp e.output) e.at)) es

get-step :
    (t : Tracker) (e : Event) (tenant : String)
    → lookup tenant (record_usage t e.tenant e.input e.output e.at) ≡ (
        if str_eq e.tenant tenant
        then some (add_to (fresh_or e.at (lookup tenant t)) (clamp e.input) (clamp e.output) e.at)
        else lookup tenant t)
unfolding record_usage
get-step t e tenant = elim (Bool-cases (str_eq e.tenant tenant)) [
  | inl same ↦ let name = (str_eq_iff e.tenant tenant).0 same in rw (lookup-insert, same) (rw name)
  | inr other ↦ rw (lookup-insert, other)
]

get-add_all :
    (es : List Event) (t : Tracker) (tenant : String)
    → lookup tenant (record_events t es) ≡ add_all (lookup tenant t) (own tenant es)
unfolding record_events add_all
get-add_all [] t tenant = refl
get-add_all (e ∷ es) t tenant =
    get-add_all es (record_usage t e.tenant e.input e.output e.at) tenant
    ∙ elim (Bool-cases (str_eq e.tenant tenant)) [
      | inl same ↦ rw (get-step, same)
      | inr other ↦ rw (get-step, other)
    ]

same_entry :
    {a a' b b' n n' : ℕ} (first last : ℕ)
    → a ≡ a'
    → b ≡ b'
    → n ≡ n'
    → ◌≡◌ {A = Option Usage}
        (some (record {
          input_tokens = a;
          output_tokens = b;
          requests = n;
          first_seen = first;
          last_seen = last;
        }))
        (some (record {
          input_tokens = a';
          output_tokens = b';
          requests = n';
          first_seen = first;
          last_seen = last;
        }))
same_entry first last p q r = cc

add_all-some :
    (es : List Event) (u : Usage) (a b n : ℕ)
    → u.input_tokens ≡ a % i64_mod
    → u.output_tokens ≡ b % i64_mod
    → u.requests ≡ n % i64_mod
    → add_all (some u) es
      ≡ some (record {
        input_tokens = (a + sum_of input_of es) % i64_mod;
        output_tokens = (b + sum_of output_of es) % i64_mod;
        requests = (n + length es) % i64_mod;
        first_seen = u.first_seen;
        last_seen = last_at u.last_seen es;
      })
unfolding add_all add_to fresh_or
add_all-some [] u a b n ea eb en = ground arith
add_all-some (e ∷ es) u a b n ea eb en =
    add_all-some es (add_to u (clamp e.input) (clamp e.output) e.at) (a + clamp e.input)
      (b + clamp e.output) (n + 1) (omega (arith, ea)) (omega (arith, eb)) (omega (arith, en))
    ∙ same_entry u.first_seen (last_at e.at es) (omega arith) (omega arith) (omega arith)

from_none : (es : List Event) → add_all none es ≡ entry_of es
unfolding add_all add_to fresh_or
from_none [] = refl
from_none (e ∷ es) =
    add_all-some es (add_to (fresh_or e.at none) (clamp e.input) (clamp e.output) e.at)
      (clamp e.input) (clamp e.output) 1 (omega arith) (omega arith) (omega arith)
    ∙ same_entry e.at (last_at e.at es) (omega arith) (omega arith) (omega arith)

-- A tenant's entry in a new tracker depends only on its own calls, whatever other tenants' calls come
-- between them: it is missing without a call, and else holds the sums of its non-negative counts and
-- the number of its calls, each modulo 2 ^ 64, with the times of its first and its last call.
pub get-record_events :
    (es : List Event) (tenant : String)
    → get (record_events [] es) tenant ≡ entry_of (own tenant es)
unfolding get lookup
get-record_events es tenant = get-add_all es [] tenant ∙ from_none (own tenant es)

-- `Reset` with a tenant removes that tenant's entry alone and returns how many it removed, one or
-- none; with the empty name it removes all, and returns their number.
reset_lem :
    (t : Tracker) (tenant j : String)
    → (get (reset t tenant).0 j
        ≡ (if str_eq tenant "" then none else if str_eq tenant j then none else get t j))
      × ((reset t tenant).1
          ≡ (if str_eq tenant "" then length t else elim (get t tenant) [ none ↦ 0 | some u ↦ 1 ]))
unfolding reset get
reset_lem t tenant j = elim (Bool-cases (str_eq tenant "")) [
  | inl all ↦ rw all (unfold lookup in (refl, refl))
  | inr one ↦ rw one (elim (Option-cases (lookup tenant t)) [
    | inl missing ↦ rw missing (ground (arith, str_eq_iff tenant j, missing), refl)
    | inr (u, found) ↦ rw found (lookup-delete tenant j t, refl)
  ])
]
