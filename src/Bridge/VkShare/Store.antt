-- ===== src/Bridge/VkShare/Store.antt =====
-- The token store of latticeshield-bridge/src/vk_share.rs and its two operations. The mutex makes
-- each of them one step. The time, the random token and SHA-256 are arguments.
use latticeshield.Prelude.{
  ℕ, ◌+◌, Bool, true, false, [], ◌++◌, length, ltb, leb, ◌==◌, if◌then◌else◌, none, some, Result,
  ok, err,
}
use latticeshield.Prelude.Bytes.{Bytes}
use latticeshield.Prelude.Dict.{Key, Dict, lookup, insert, remove, retain}
use latticeshield.Prelude.Text.{Text, codes}
use latticeshield.Bridge.VkShare.Hex.{hex_encode}

abbrev pub default_token_ttl_secs : ℕ
default_token_ttl_secs = 600

abbrev pub default_token_max : ℕ
default_token_max = 1000

pub data VkShareError : Type 0 where
  too_many_tokens : VkShareError

pub record VkShareEntry : Type 0 where
  pub vk_hex : Text
  pub fingerprint : Text
  pub expires_at : ℕ
  pub used : Bool

abbrev pub VkShareStore : Type 0 → Type 0
VkShareStore K = Dict K VkShareEntry

abbrev pub new_store : {K : Type 0} → VkShareStore K
new_store = []

-- The parts of the rendered response: status line, Content-Length and body.
pub record HttpResponse : Type 0 where
  pub status : ℕ
  pub reason : Text
  pub content_length : ℕ
  pub body : Text

unfoldable pub http_json_response : ℕ → Text → HttpResponse
http_json_response status body = record {
  status = status;
  reason =
      if status == 200
      then codes "OK"
      else if status == 404
      then codes "Not Found"
      else if status == 410
      then codes "Gone"
      else codes "Error";
  content_length = length body;
  body = body;
}

-- `format!(r#"{{"server_vk":"{}","fingerprint":"{}"}}"#, …)`.
unfoldable pub vk_body : VkShareEntry → Text
vk_body e =
    codes "{\"server_vk\":\""
    ++ (e.vk_hex ++ (codes "\",\"fingerprint\":\"" ++ (e.fingerprint ++ codes "\"}")))

abbrev pub is_live : ℕ → VkShareEntry → Bool
is_live now e = ltb now e.expires_at

abbrev pub fresh_entry : (Bytes → Bytes) → ℕ → Bytes → ℕ → VkShareEntry
fresh_entry sha256 now vk_bytes ttl = record {
  vk_hex = hex_encode vk_bytes;
  fingerprint = hex_encode (sha256 vk_bytes);
  expires_at = now + ttl;
  used = false;
}

module _ {K : Type 0} ⦃key : Key K⦄ where
  insert_below_cap :
      K → VkShareEntry → ℕ → VkShareStore K → Result VkShareError (K × Text) × VkShareStore K
  insert_below_cap token entry max_tokens live =
      if leb max_tokens (length live)
      then (err too_many_tokens, live)
      else (ok (token, entry.fingerprint), insert token entry live)

  -- Entries that have run out are evicted before the cap is checked.
  unfoldable pub create_token :
      (sha256 : Bytes → Bytes) (now : ℕ) (token : K) (vk_bytes : Bytes) (ttl max_tokens : ℕ)
      → VkShareStore K
      → Result VkShareError (K × Text) × VkShareStore K
  unfolding insert_below_cap
  create_token sha256 now token vk_bytes ttl max_tokens store =
      insert_below_cap token (fresh_entry sha256 now vk_bytes ttl) max_tokens
        (retain (is_live now) store)

  respond : ℕ → K → VkShareStore K → VkShareEntry → HttpResponse × VkShareStore K
  respond now token store entry =
      if ltb entry.expires_at now
      then (http_json_response 410 (codes "{\"error\":\"token expired\"}"), remove token store)
      else if entry.used
      then (http_json_response 410 (codes "{\"error\":\"token already used\"}"), store)
      else (
        http_json_response 200 (vk_body entry),
        insert token (record entry { used = true }) store,
      )

  unfoldable pub vk_response : ℕ → K → VkShareStore K → HttpResponse × VkShareStore K
  unfolding respond
  vk_response now token store = elim (lookup token store) [
    | none ↦ (http_json_response 404 (codes "{\"error\":\"token not found\"}"), store)
    | some entry ↦ respond now token store entry
  ]
