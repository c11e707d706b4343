-- ===== src/Proxy/Forward/Body.antt =====
-- The defaults that are put into a request's body.
use prompt_response.Common.{
  ◌≡◌, refl, sym, ap, ◌∙◌, Bool, true, false, ◌||◌, String, Option, none, some, if◌then◌else◌,
  str_eq, str_eq_iff, Table, lookup, insert, lookup-insert, string_eq, Bool-cases, Option-cases,
  ◌>>=◌, inl, inr, arith,
}
use prompt_response.Proxy.Forward.{
  is_present, has_key, assign, put_default, or_body, inject_in, inject_defaults,
}

module _ {V : Type 0} where
  -- The first of two values that is there.
  abbrev pub or_else : Option V → Option V → Option V
  or_else none other = other
  or_else (some v) other = some v

  -- The default of a key.
  abbrev pub default_of : Option V → Option V → String → Option V
  default_of frequency presence key =
      if str_eq "frequency_penalty" key
      then frequency
      else if str_eq "presence_penalty" key
      then presence
      else none

  or_else-none : (o : Option V) → or_else o none ≡ o
  or_else-none none = refl
  or_else-none (some v) = refl

  -- One setting fills its key alone, and only where it is missing.
  put_default-some :
      (key : String) (d : Option V) (m : Table String V) (modified : Bool)
      → (m' : Table String V) × (b : Bool) × (put_default key d (some m, modified)
          ≡ some (some m', b))
        × ((j : String) → lookup j m' ≡ or_else (lookup j m) (if str_eq key j then d else none))
        × (b ≡ false → (m' ≡ m) × (modified ≡ false))
  unfolding put_default is_present has_key assign
  put_default-some key none m modified = (m, modified, refl, λ j. ground arith, λ e. (refl, e))
  put_default-some key (some v) m modified = elim (Option-cases (lookup key m)) [
    | inl missing ↦ rw missing (
      insert key v m,
      true,
      refl,
      λ j. elim (Bool-cases (str_eq key j)) [
        | inl same ↦
            let at : key ≡ j = (str_eq_iff key j).0 same in
            rw (lookup-insert, same) (rw (sym at) (rw missing refl))
        | inr other ↦ rw (lookup-insert, other) (sym (or_else-none (lookup j m)))
      ],
      λ e. cc e,
    )
    | inr (w, found) ↦ rw found (
      m,
      modified,
      refl,
      λ j. elim (Bool-cases (str_eq key j)) [
        | inl same ↦ let at : key ≡ j = (str_eq_iff key j).0 same in rw (sym at) (rw found refl)
        | inr other ↦ rw other (sym (or_else-none (lookup j m)))
      ],
      λ e. (refl, e),
    )
  ]

  -- A key that has its value, or has no default, is left alone.
  put_default-idle :
      (key : String) (o d : Option V) (m : Table String V) (modified : Bool)
      → lookup key m ≡ or_else o d
      → put_default key d (some m, modified) ≡ some (some m, modified)
  unfolding put_default is_present has_key assign
  put_default-idle key o none m modified h = refl
  put_default-idle key none (some v) m modified h = rw h refl
  put_default-idle key (some w) (some v) m modified h = rw h refl

  defaults-join :
      (frequency presence o : Option V) (j : String)
      → or_else
          (or_else o (if str_eq "frequency_penalty" j then frequency else none))
          (if str_eq "presence_penalty" j then presence else none)
        ≡ or_else o (default_of frequency presence j)
  defaults-join frequency presence none j = elim (Bool-cases (str_eq "frequency_penalty" j)) [
    | inl same ↦
        let at : "frequency_penalty" ≡ j = (str_eq_iff "frequency_penalty" j).0 same in
        rw (sym at) (or_else-none frequency)
    | inr other ↦ rw other refl
  ]
  defaults-join frequency presence (some v) j = refl

put_both-nil :
    {B V : Type 0} (frequency presence : Option V) (k : Option (Table String V) × Bool → Option B)
    (body : B)
    → k (none, false) ≡ some body
    → (put_default "frequency_penalty" frequency (none, false)
        >>= put_default "presence_penalty" presence
        >>= k)
      ≡ (if is_present frequency || is_present presence then none else some body)
unfolding put_default has_key assign is_present
put_both-nil none none k body e = e
put_both-nil none (some v) k body e = refl
put_both-nil (some w) presence k body e = refl

module _ {B V : Type 0} (unmarshal : B → Option (Option (Table String V)))
    (marshal : Option (Table String V) → Option B) (frequency presence : Option V) where
  -- A body that is read as `m` is sent as one that is read as `m'`.
  pub inject-both :
      (body : B) (m : Table String V)
      → unmarshal body ≡ some (some m)
      → (m' : Table String V) × (b : Bool) × (inject_defaults unmarshal marshal frequency presence
            body
          ≡ some (if b then or_body body (marshal (some m')) else body))
        × ((j : String) → lookup j m' ≡ or_else (lookup j m) (default_of frequency presence j))
        × (b ≡ false → m' ≡ m)
  unfolding inject_defaults inject_in
  inject-both body m read =
      let (m₁, b₁, e₁, l₁, s₁) = put_default-some "frequency_penalty" frequency m false in
      let (m₂, b₂, e₂, l₂, s₂) = put_default-some "presence_penalty" presence m₁ b₁ in
      (
        m₂,
        b₂,
        rw (read, e₁, e₂) refl,
        λ j.
            l₂ j
            ∙ ap (λ o. or_else o (if str_eq "presence_penalty" j then presence else none)) (l₁ j)
            ∙ defaults-join frequency presence (lookup j m) j,
        λ same. (s₂ same).0 ∙ (s₁ (s₂ same).1).0,
      )

  out-both :
      ((m : Table String V)
        → (out : B) × (m' : Table String V) × (marshal (some m) ≡ some out)
          × (unmarshal out ≡ some (some m'))
          × ((j : String) → lookup j m' ≡ lookup j m))
      → (body : B) (m m₂ : Table String V) (b : Bool) → unmarshal body ≡ some (some m)
      → (b ≡ false → m₂ ≡ m)
      → (m' : Table String V) × (unmarshal (if b then or_body body (marshal (some m₂)) else body)
          ≡ some (some m'))
        × ((j : String) → lookup j m' ≡ lookup j m₂)
  unfolding or_body
  out-both law body m m₂ true read same =
      let (out, m', e, back, l) = law m₂ in (m', rw (e, back) refl, l)
  out-both law body m m₂ false read same = (m, read, λ j. rw (same refl) refl)

  -- When what `Marshal` writes of a map is read back as a map with the same entries, a body that is
  -- read as a map is sent on as one in which each key has the client's value, or else the configured
  -- default if it has one; and to do it again changes nothing more.
  pub inject_defaults-fills :
      ((m : Table String V)
        → (out : B) × (m' : Table String V) × (marshal (some m) ≡ some out)
          × (unmarshal out ≡ some (some m'))
          × ((j : String) → lookup j m' ≡ lookup j m))
      → (body : B) (m : Table String V) → unmarshal body ≡ some (some m)
      → (out : B) × (m' : Table String V) × (inject_defaults unmarshal marshal frequency presence
            body
          ≡ some out)
        × (unmarshal out ≡ some (some m'))
        × ((j : String) → lookup j m' ≡ or_else (lookup j m) (default_of frequency presence j))
        × (inject_defaults unmarshal marshal frequency presence out ≡ some out)
  unfolding inject_defaults inject_in
  inject_defaults-fills law body m read =
      let (m₂, b, e, filled, same) = inject-both body m read in
      let (m', back, l) = out-both law body m m₂ b read same in
      let full : (j : String)
          → lookup j m' ≡ or_else (lookup j m) (default_of frequency presence j) =
        λ j. l j ∙ filled j in
      let first =
        put_default-idle "frequency_penalty" (lookup "frequency_penalty" m) frequency m' false
          (full "frequency_penalty") in
      let second =
        put_default-idle "presence_penalty" (lookup "presence_penalty" m) presence m' false
          (full "presence_penalty") in
      (
        if b then or_body body (marshal (some m₂)) else body,
        m',
        e,
        back,
        full,
        rw (back, first, second) refl,
      )

  -- A body that is read as a nil map, which the JSON text `null` is, makes `injectDefaults` panic as
  -- soon as one of the two defaults is configured; without defaults it is sent as it is, and so is
  -- a body that cannot be read, whatever the defaults are.
  pub inject_defaults-nil :
      (body : B)
      → (unmarshal body ≡ some none
          → inject_defaults unmarshal marshal frequency presence body
            ≡ (if is_present frequency || is_present presence then none else some body))
        × (unmarshal body ≡ none
            → inject_defaults unmarshal marshal frequency presence body ≡ some body)
  unfolding inject_defaults inject_in put_default has_key assign is_present
  inject_defaults-nil body =
      (λ e. rw e (put_both-nil frequency presence _ body refl), λ e. rw e refl)
