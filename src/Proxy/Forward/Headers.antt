-- ===== src/Proxy/Forward/Headers.antt =====
-- The headers that `copyHeaders` copies, name by name.
use mathlib.Core.List.{append_assoc, append-nil}
use prompt_response.Common.{
  ◌≡◌, refl, sym, ◌∙◌, ap, String, List, [], ◌∷◌, ◌++◌, if◌then◌else◌, str_eq, str_eq_iff, insert,
  lookup_or, lookup_or-insert, string_eq, Bool-cases, inl, inr,
}
use prompt_response.Proxy.Retry.{member}
use prompt_response.Proxy.Forward.{Header, hop_by_hop, add_values, copy_headers}

module _ (canonical : String → String) where
  -- The values that a header has under the names whose canonical form is `name`, in order.
  unfoldable pub values_for : String → Header → List String
  values_for name [] = []
  values_for name ((k, vs) ∷ src) =
      if str_eq (canonical k) name then vs ++ values_for name src else values_for name src

  lookup_or-add_values :
      (dst : Header) (k name : String) (vs : List String)
      → lookup_or [] name (add_values canonical dst k vs)
        ≡ (if str_eq (canonical k) name then lookup_or [] name dst ++ vs else lookup_or [] name dst)
  unfolding add_values
  lookup_or-add_values dst k name [] = elim (Bool-cases (str_eq (canonical k) name)) [
    | inl same ↦ rw same (sym (append-nil (lookup_or [] name dst)))
    | inr other ↦ rw other refl
  ]
  lookup_or-add_values dst k name (v ∷ vs) =
      let old = lookup_or [] (canonical k) dst ++ (v ∷ []) in
      lookup_or-add_values (insert (canonical k) old dst) k name vs
      ∙ elim (Bool-cases (str_eq (canonical k) name)) [
        | inl same ↦
            let at : canonical k ≡ name = (str_eq_iff (canonical k) name).0 same in
            rw (lookup_or-insert, same) (rw at (append_assoc (lookup_or [] name dst) (v ∷ []) vs))
        | inr other ↦ rw (lookup_or-insert, other) refl
      ]

  -- `copyHeaders` appends to each name of the destination the values that the source has under the
  -- name's canonical forms, in the source's order, except for the hop-by-hop names, whose values in
  -- the destination stay what they were.
  pub lookup-copy_headers :
      (src dst : Header) (name : String)
      → lookup_or [] name (copy_headers canonical dst src)
        ≡ lookup_or [] name dst ++ (if member hop_by_hop name then [] else values_for name src)
  unfolding copy_headers values_for
  lookup-copy_headers [] dst name = elim (Bool-cases (member hop_by_hop name)) [
    | inl hop ↦ rw hop (sym (append-nil (lookup_or [] name dst)))
    | inr other ↦ rw other (sym (append-nil (lookup_or [] name dst)))
  ]
  lookup-copy_headers ((k, vs) ∷ src) dst name = elim (Bool-cases (str_eq (canonical k) name)) [
    | inl same ↦
        let at : canonical k ≡ name = (str_eq_iff (canonical k) name).0 same in
        elim (Bool-cases (member hop_by_hop name)) [
          | inl hop ↦
              rw (ap (member hop_by_hop) at ∙ hop) (lookup-copy_headers src dst name ∙ rw hop refl)
          | inr kept ↦ rw (ap (member hop_by_hop) at ∙ kept) (
              lookup-copy_headers src (add_values canonical dst k vs) name
              ∙ rw (lookup_or-add_values, same, kept)
                  (append_assoc (lookup_or [] name dst) vs (values_for name src)))
        ]
    | inr other ↦ rw other (elim (Bool-cases (member hop_by_hop (canonical k))) [
      | inl hop ↦ rw hop (lookup-copy_headers src dst name)
      | inr kept ↦ rw kept (
          lookup-copy_headers src (add_values canonical dst k vs) name
          ∙ rw (lookup_or-add_values, other) refl)
    ])
  ]
