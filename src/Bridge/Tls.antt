-- ===== src/Bridge/Tls.antt =====
-- A connection to the TLS listener of latticeshield-bridge/src/server.rs: reading the head of the request, and where it is
-- answered. The crate httparse and the connection to the backend (latticeshield-bridge/src/http_relay.rs) are arguments.
pub mod Head
use latticeshield.Prelude.{
  ℕ, ◌+◌, ◌*◌, Bool, true, false, ◌&&◌, List, [], ◌∷◌, ◌++◌, length, ltb, leb, ◌==◌, if◌then◌else◌,
  Option, none, some,
}
use latticeshield.Prelude.Bytes.{Bytes}
use latticeshield.Prelude.Text.{Text, codes, text_eq, text_key}
use latticeshield.Prelude.Dict.{Key}
use latticeshield.Bridge.VkShare.Store.{VkShareStore, HttpResponse, vk_response}

abbrev pub max_head_bytes : ℕ
max_head_bytes = 8 * 1024

-- `waiting` is a read that has not come back.
pub data HeadResult : Type 0 where
  complete : Bytes → HeadResult
  too_large eof waiting : HeadResult

abbrev pub starts_with_end : Bytes → Bool
starts_with_end (a ∷ b ∷ c ∷ d ∷ rest) = a == 13 && b == 10 && c == 13 && d == 10
starts_with_end _ = false

-- `windows(4).any(|w| w == b"\r\n\r\n")`.
unfoldable pub has_end : Bytes → Bool
has_end [] = false
has_end (b ∷ bs) = let rest = has_end bs in if starts_with_end (b ∷ bs) then true else rest

-- What a read that gave bytes leads to, where `later` is the rest of the loop.
unfoldable pub after_read : (buf : Bytes) (later : HeadResult) → HeadResult
after_read buf later =
    if leb max_head_bytes (length buf)
    then if has_end buf then complete buf else too_large
    else if has_end buf
    then complete buf
    else later

-- The loop over what the reads give: an error, or a chunk, which is empty at the end of the stream.
unfoldable pub read_http_head_inplace : List (Option Bytes) → (buf : Bytes) → HeadResult
read_http_head_inplace [] buf = if leb max_head_bytes (length buf) then too_large else waiting
read_http_head_inplace (none ∷ reads) buf =
    if leb max_head_bytes (length buf) then too_large else eof
read_http_head_inplace (some [] ∷ reads) buf =
    if leb max_head_bytes (length buf) then too_large else eof
read_http_head_inplace (some (b ∷ bs) ∷ reads) buf =
    let later = read_http_head_inplace reads (buf ++ (b ∷ bs)) in
    if leb max_head_bytes (length buf) then too_large else after_read (buf ++ (b ∷ bs)) later

-- A request line that httparse has read.
pub record RequestLine : Type 0 where
  pub method : Text
  pub path : Text

unfoldable pub strip_prefix : (prefix path : Text) → Option Text
strip_prefix [] path = some path
strip_prefix (p ∷ prefix) [] = none
strip_prefix (p ∷ prefix) (c ∷ path) =
    let rest = strip_prefix prefix path in if c == p then rest else none

module _ (parse : Bytes → Option RequestLine) where
  unfoldable pub extract_vk_token : Bytes → Option Text
  extract_vk_token buf = token_of (parse buf)
    where
      token_of : Option RequestLine → Option Text
      token_of none = none
      token_of (some line) =
          if text_eq line.method (codes "GET") then strip_prefix (codes "/vk/") line.path else none

  -- What the connection leads to: a response of the bridge, nothing, or the bytes that are passed on to the backend first.
  pub data Routed : Type 0 where
    bad_request closed still_reading bad_gateway : Routed
    answered : HttpResponse → Routed
    relayed : Bytes → Routed

  -- `handle_with_preread` up to the copying of the streams.
  unfoldable pub handle_with_preread : (backend_connects : Bool) → (preread : Bytes) → Routed
  handle_with_preread backend_connects preread =
      if backend_connects then relayed preread else bad_gateway

  unfoldable pub route_head :
      (now : ℕ) (backend_connects : Bool) → Bytes → VkShareStore Text → Routed × VkShareStore Text
  route_head now backend_connects head_bytes store = routed (extract_vk_token head_bytes)
    where
      routed : Option Text → Routed × VkShareStore Text
      routed none = (handle_with_preread backend_connects head_bytes, store)
      routed (some token) =
          let (response, after) = vk_response now token store in (answered response, after)

  unfoldable pub serve :
      (now : ℕ) (backend_connects : Bool)
      → HeadResult
      → VkShareStore Text
      → Routed × VkShareStore Text
  serve now backend_connects too_large store = (bad_request, store)
  serve now backend_connects eof store = (closed, store)
  serve now backend_connects waiting store = (still_reading, store)
  serve now backend_connects (complete head_bytes) store =
      route_head now backend_connects head_bytes store
