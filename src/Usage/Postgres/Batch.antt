-- ===== src/Usage/Postgres/Batch.antt =====
-- internal/usage/postgres.go: what a batch of events comes to for one tenant.
use prompt_response.Common.{
  ℕ, ◌+◌, ◌%◌, ◌≡◌, refl, sym, ◌∙◌, subst, String, List, [], ◌∷◌, Option, none, some, if◌then◌else◌,
  ltb, str_eq, str_eq_iff, length, Table, lookup, insert, lookup-insert, string_eq, arith,
  Bool-cases, inl, inr,
}
use prompt_response.Usage.{i64_mod}
use prompt_response.Usage.Sink.{UsageEvent}
use prompt_response.Usage.Postgres.{Agg, agg_or_new, add_event, aggregate}

-- The events of one tenant.
abbrev pub own : String → List UsageEvent → List UsageEvent
own tenant [] = []
own tenant (ev ∷ evs) = if str_eq ev.tenant tenant then ev ∷ own tenant evs else own tenant evs

abbrev pub sum_of : (UsageEvent → ℕ) → List UsageEvent → ℕ
sum_of f [] = 0
sum_of f (ev ∷ evs) = f ev + sum_of f evs

abbrev pub input_of : UsageEvent → ℕ
input_of ev = ev.input

abbrev pub output_of : UsageEvent → ℕ
output_of ev = ev.output

-- The time of the latest event.
abbrev pub latest : List UsageEvent → ℕ
latest [] = 0
latest (ev ∷ evs) = if ltb ev.at (latest evs) then latest evs else ev.at

abbrev add_all : Option Agg → List UsageEvent → Option Agg
add_all o [] = o
add_all o (ev ∷ evs) = add_all (some (add_event (agg_or_new ev o) ev)) evs

aggregate-own :
    (k : String) (evs : List UsageEvent) (m : Table String Agg)
    → lookup k (aggregate evs m) ≡ add_all (lookup k m) (own k evs)
unfolding aggregate
aggregate-own k [] m = refl
aggregate-own k (ev ∷ evs) m =
    let a = add_event (agg_or_new ev (lookup ev.tenant m)) ev in
    aggregate-own k evs (insert ev.tenant a m) ∙ elim (Bool-cases (str_eq ev.tenant k)) [
      | inl same ↦ rw (lookup-insert, same) (rw ((str_eq_iff ev.tenant k).0 same) refl)
      | inr other ↦ rw (lookup-insert, other) refl
    ]

-- What `a` is after some events, from sums that are not reduced.
abbrev pub Summed : ℕ → ℕ → ℕ → ℕ → Option Agg → Type 0
Summed i o n l none = ⊥
Summed i o n l (some a) =
    (a.input ≡ i % i64_mod) × (a.output ≡ o % i64_mod) × (a.count ≡ n % i64_mod) × (a.last ≡ l)

Summed-cong :
    {i i' o o' n n' l l' : ℕ} (x : Option Agg)
    → i ≡ i'
    → o ≡ o'
    → n ≡ n'
    → l ≡ l'
    → Summed i o n l x
    → Summed i' o' n' l' x
Summed-cong none p q r t h = h
Summed-cong (some a) p q r t h = omega (arith, h, p, q, r, t)

add_all-Summed :
    (evs : List UsageEvent) (i o n : ℕ) (a : Agg)
    → Summed i o n a.last (some a)
    → Summed
        (i + sum_of input_of evs)
        (o + sum_of output_of evs)
        (n + length evs)
        (if ltb a.last (latest evs) then latest evs else a.last)
        (add_all (some a) evs)
unfolding add_event agg_or_new
add_all-Summed [] i o n a h = ground arith
add_all-Summed (ev ∷ evs) i o n a h =
    let a' = add_event a ev in
    Summed-cong (add_all (some a') evs) (omega arith) (omega arith) (omega arith) (ground arith) (
      add_all-Summed evs (i + ev.input) (o + ev.output) (n + 1) a'
        (omega (arith, h), omega (arith, h), omega (arith, h), refl))

-- One tenant's part of a batch, from nothing.
abbrev pub Aggregated : List UsageEvent → Option Agg → Type 0
Aggregated [] x = x ≡ none
Aggregated (ev ∷ evs) x =
    Summed (sum_of input_of (ev ∷ evs)) (sum_of output_of (ev ∷ evs)) (length (ev ∷ evs))
      (latest (ev ∷ evs)) x

add_all-Aggregated : (evs : List UsageEvent) → Aggregated evs (add_all none evs)
unfolding add_event agg_or_new
add_all-Aggregated [] = refl
add_all-Aggregated (ev ∷ evs) =
    let a = add_event (agg_or_new ev none) ev in
    Summed-cong (add_all (some a) evs) (omega arith) (omega arith) (omega arith) (ground arith)
      (add_all-Summed evs ev.input ev.output 1 a (omega arith, omega arith, omega arith, refl))

-- No key stands twice.
abbrev pub Keyed : Table String Agg → Type 0
Keyed [] = Unit
Keyed ((k, a) ∷ m) = (lookup k m ≡ none) × Keyed m

insert-Keyed : (k : String) (a : Agg) (m : Table String Agg) → Keyed m → Keyed (insert k a m)
unfolding insert lookup
insert-Keyed k a [] h = (refl, tt)
insert-Keyed k a ((j, b) ∷ m) h = elim (Bool-cases (str_eq j k)) [
  | inl same ↦ rw same (subst (λ t. lookup t m ≡ none) ((str_eq_iff j k).0 same) h.0, h.1)
  | inr other ↦ rw other (
    ground (arith, lookup-insert k j a m, str_eq_iff j k, str_eq_iff k j, h.0),
    insert-Keyed k a m h.1,
  )
]

pub aggregate-Keyed :
    (evs : List UsageEvent) (m : Table String Agg) → Keyed m → Keyed (aggregate evs m)
unfolding aggregate
aggregate-Keyed [] m h = h
aggregate-Keyed (ev ∷ evs) m h = aggregate-Keyed evs _ (insert-Keyed ev.tenant _ m h)

pub aggregate-Aggregated :
    (k : String) (evs : List UsageEvent) → Aggregated (own k evs) (lookup k (aggregate evs []))
unfolding lookup
aggregate-Aggregated k evs =
    subst (Aggregated (own k evs)) (sym (aggregate-own k evs [])) (add_all-Aggregated (own k evs))
