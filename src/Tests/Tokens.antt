-- ===== src/Tests/Tokens.antt =====
-- The theorems on the token store at concrete tokens.
use latticeshield.Prelude.{ℕ, ◌≡◌, ◌≢◌, refl, [], ◌∷◌, arith}
use latticeshield.Prelude.Bytes.{Bytes}
use latticeshield.Prelude.Text.{codes}
use latticeshield.Prelude.Dict.{number_key, lookup}
use latticeshield.Bridge.VkShare.Hex.{hex_encode}
use latticeshield.Bridge.VkShare.Store.{VkShareStore, fresh_entry, vk_response, http_json_response}
use latticeshield.Bridge.VkShare.Tokens.{WellFormed}
use latticeshield.Bridge.VkShare.History.{creates, run, served_once}

abbrev digest : Bytes → Bytes
digest vk = 1 ∷ 2 ∷ 255 ∷ []

abbrev vk : Bytes
vk = 16 ∷ 171 ∷ []

-- One token, created at 100 for 600 seconds.
abbrev store : VkShareStore ℕ
store = (5, fresh_entry digest 100 vk 600) ∷ []

apart : ◌≢◌ {A = ℕ} 6 5
apart h = omega arith

store-WellFormed : WellFormed 1000 store
unfolding lookup
store-WellFormed = record { distinct = (refl, tt); capped = omega arith }

hex_encode_test : hex_encode vk ≡ codes "10ab"
unfolding hex_encode
hex_encode_test = refl

served_once_example :
    (vk_response 300 5
      (run digest 1000 (creates 250 6 vk 10 ∷ []) (vk_response 200 5 store).1)).0.status
    ≢ 200
unfolding vk_response http_json_response lookup
served_once_example =
    served_once digest 1000 200 300 5 store (creates 250 6 vk 10 ∷ []) store-WellFormed served
      (apart, tt)
  where
    served : (vk_response 200 5 store).0.status ≡ 200
    served = refl
