-- ===== src/Bridge/Ws/Origin.antt =====
-- `NormalizedOrigin` and `OriginCheck` of latticeshield-bridge/src/ws.rs. `url::Url::parse` of the crate
-- url is a parameter.
use latticeshield.Prelude.{
  ℕ, ◌+◌, Bool, true, false, not, ◌&&◌, ◌||◌, List, [], ◌∷◌, ◌++◌, map, leb, if◌then◌else◌, Option,
  none, some, Result, ok, err, ok_or, ◌>>=?◌,
}
use latticeshield.Prelude.Text.{Text, codes, text_eq, is_empty}
use latticeshield.Prelude.Decimal.{decimal}

-- What the code asks of a parsed URL. The scheme is in lower case, and `port` is none where it is
-- left out or the default of the scheme.
pub record Url : Type 0 where
  pub scheme : Text
  pub host_str : Option Text
  pub path : Text
  pub query : Option Text
  pub fragment : Option Text
  pub port : Option ℕ

pub data OriginError : Type 0 where
  invalid_url bad_scheme missing_host has_path has_query has_fragment : OriginError

pub record NormalizedOrigin : Type 0 where
  pub normalized : Text

-- ASCII letters; the host of an http URL holds no others.
unfoldable pub to_lowercase : Text → Text
to_lowercase = map λ c. if leb b'A' c && leb c b'Z' then c + 32 else c

abbrev pub is_some {ℓ} : {A : Type ℓ} → Option A → Bool
is_some none = false
is_some (some a) = true

abbrev pub check {ℓ} : {E : Type ℓ} → Bool → E → Result E (Unit {0})
check b e = if b then err e else ok tt

unfoldable pub port_of : Url → ℕ
port_of url = elim url.port [
  | some p ↦ p
  | none ↦ if text_eq url.scheme (codes "https") then 443 else 80
]

unfoldable pub canonical : Text → Text → ℕ → Text
canonical scheme host port = scheme ++ (codes "://" ++ (host ++ (codes ":" ++ decimal port)))

unfoldable pub normalize : Url → Result OriginError NormalizedOrigin
normalize url =
    check (not (text_eq url.scheme (codes "https")) && not (text_eq url.scheme (codes "http")))
      bad_scheme
    >>=? λ _. ok_or url.host_str missing_host >>=? λ host.
        check (not (is_empty url.path) && not (text_eq url.path (codes "/"))) has_path >>=? λ _.
        check (is_some url.query) has_query >>=? λ _.
        check (is_some url.fragment) has_fragment >>=? λ _.
        ok (record { normalized = canonical url.scheme (to_lowercase host) (port_of url) })

module _ (parse_url : Text → Option Url) where
  unfoldable pub parse : Text → Result OriginError NormalizedOrigin
  parse s = ok_or (parse_url s) invalid_url >>=? normalize

  unfoldable pub matches_header : NormalizedOrigin → Text → Bool
  matches_header o header = elim (parse header) [
    | ok parsed ↦ text_eq parsed.normalized o.normalized
    | err e ↦ false
  ]

  unfoldable pub any_matches : List NormalizedOrigin → Text → Bool
  any_matches [] header = false
  any_matches (o ∷ os) header = matches_header o header || any_matches os header

  -- `on_request`: true lets the upgrade through, false answers 403. The header is none where it is
  -- missing or no text.
  unfoldable pub on_request : List NormalizedOrigin → Option Text → Bool
  unfolding any_matches
  on_request [] header = true
  on_request (o ∷ os) none = false
  on_request (o ∷ os) (some header) = any_matches (o ∷ os) header
