-- ===== src/Tests/Origins.antt =====
-- The check of the Origin header at a concrete list.
use latticeshield.Prelude.{◌≡◌, ◌↔◌, refl, true, [], ◌∷◌, Option, none, some, if◌then◌else◌}
use latticeshield.Prelude.Text.{Text, codes, text_eq}
use latticeshield.Prelude.Decimal.{decimal}
use latticeshield.Bridge.Ws.Origin.{
  Url, NormalizedOrigin, on_request, any_matches, matches_header, parse, normalize, canonical,
  port_of, to_lowercase,
}
use latticeshield.Bridge.Ws.Matching.{LetThrough, on_request-LetThrough}

-- A parser that knows one URL.
abbrev parse_url : Text → Option Url
parse_url s =
    if text_eq s (codes "https://App.io")
    then some (record {
      scheme = codes "https";
      host_str = some (codes "App.io");
      path = codes "/";
      query = none;
      fragment = none;
      port = none;
    })
    else none

abbrev app : NormalizedOrigin
app = record { normalized = codes "https://app.io:443" }

app_test : on_request parse_url (app ∷ []) (some (codes "https://App.io")) ≡ true
unfolding on_request any_matches matches_header parse normalize canonical port_of to_lowercase
    decimal text_eq
app_test = refl

on_request-LetThrough_example :
    (on_request parse_url (app ∷ []) (some (codes "https://App.io")) ≡ true)
    ↔ LetThrough parse_url (app ∷ []) (some (codes "https://App.io"))
on_request-LetThrough_example =
    on_request-LetThrough parse_url (app ∷ []) (some (codes "https://App.io"))
