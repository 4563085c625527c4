-- ===== src/Bridge/Ws/Matching.antt =====
-- Which origins the upgrade of latticeshield-bridge/src/ws.rs lets through.
use latticeshield.Prelude.{
  ◌≡◌, refl, sym, ap, ◌∙◌, ◌⊎◌, ◌↔◌, inl, inr, true, false, List, [], ◌∷◌, Option, none, some,
  Result-cases, ok, err, Bool-cases, arith,
}
use latticeshield.Prelude.Text.{Text, text_eq, text_eq_iff}
use latticeshield.Bridge.Ws.Origin.{
  Url, NormalizedOrigin, OriginError, parse, matches_header, on_request, any_matches,
}

abbrev pub Listed : NormalizedOrigin → List NormalizedOrigin → Type 0
Listed n [] = true ≡ false
Listed n (o ∷ os) = (n ≡ o) ⊎ Listed n os

module _ (parse_url : Text → Option Url) where
  -- No list of origins at all, or a header that parses to a listed one.
  abbrev pub LetThrough : List NormalizedOrigin → Option Text → Type 0
  LetThrough os header =
      (os ≡ [])
      ⊎ ((h : Text) × (header ≡ some h)
          × (n : NormalizedOrigin) × (parse parse_url h ≡ ok n)
          × Listed n os)

  compared :
      (o n : NormalizedOrigin) (h : Text)
      → parse parse_url h ≡ ok n
      → matches_header parse_url o h ≡ text_eq n.normalized o.normalized
  unfolding matches_header
  compared o n h e = rw (e, matches_header) refl

  matches :
      (o n : NormalizedOrigin) (h : Text)
      → parse parse_url h ≡ ok n
      → (matches_header parse_url o h ≡ true) ↔ (n ≡ o)
  matches o n h e = (
    λ t.
        ap (λ s. record { normalized = s })
          ((text_eq_iff n.normalized o.normalized).0 (sym (compared o n h e) ∙ t)),
    λ s. compared o n h e ∙ (text_eq_iff n.normalized o.normalized).1 (ap (λ x. x.normalized) s),
  )

  any_Listed :
      (os : List NormalizedOrigin) (n : NormalizedOrigin) (h : Text)
      → parse parse_url h ≡ ok n
      → (any_matches parse_url os h ≡ true) ↔ Listed n os
  unfolding any_matches
  any_Listed [] n h e = (λ f. sym f, λ f. sym f)
  any_Listed (o ∷ os) n h e =
      let (to, from) = matches o n h e in
      let (to', from') = any_Listed os n h e in
      (
        λ t. elim (Bool-cases (matches_header parse_url o h)) [
          | inl m ↦ inl (to m)
          | inr m ↦ inr (to' (rw m at t))
        ],
        λ l. elim l [ inl s ↦ rw (from s) refl | inr s ↦ ground (arith, from' s) ],
      )

  no_match :
      (o : NormalizedOrigin) (e : OriginError) (h : Text)
      → parse parse_url h ≡ err e
      → matches_header parse_url o h ≡ false
  unfolding matches_header
  no_match o e h f = rw (f, matches_header) refl

  unparsed :
      (os : List NormalizedOrigin) (e : OriginError) (h : Text)
      → parse parse_url h ≡ err e
      → any_matches parse_url os h ≡ false
  unfolding any_matches
  unparsed [] e h f = refl
  unparsed (o ∷ os) e h f = rw (no_match o e h f) (unparsed os e h f)

  -- An upgrade is let through exactly where the list of allowed origins is empty, or the request
  -- has an Origin header that parses to an origin of the list. A missing header or one that does
  -- not parse is refused by every list that is not empty.
  pub on_request-LetThrough :
      (os : List NormalizedOrigin) (header : Option Text)
      → (on_request parse_url os header ≡ true) ↔ LetThrough os header
  unfolding on_request
  on_request-LetThrough [] header = (λ _. inl refl, λ _. refl)
  on_request-LetThrough (o ∷ os) none =
      (λ t. cc, λ l. elim l [ inl e ↦ cc | inr (h, e, _, _, _) ↦ cc ])
  on_request-LetThrough (o ∷ os) (some h) = elim (Result-cases (parse parse_url h)) [
    | inl (n, e) ↦
        let (to, from) = any_Listed (o ∷ os) n h e in
        (
          λ t. inr (h, refl, n, e, to t),
          λ l. elim l [
            | inl z ↦ cc
            | inr (h', same, n', e', listed) ↦
                let parsed : parse parse_url h ≡ ok n' = cc in
                (any_Listed (o ∷ os) n' h parsed).1 listed
          ],
        )
    | inr (e, f) ↦ (
      λ t. cc (unparsed (o ∷ os) e h f),
      λ l. elim l [ inl z ↦ cc | inr (h', same, n', e', listed) ↦ cc ],
    )
  ]
