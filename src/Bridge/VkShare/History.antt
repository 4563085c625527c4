-- ===== src/Bridge/VkShare/History.antt =====
-- Any sequence of calls on one token store (latticeshield-bridge/src/vk_share.rs): the admin channel
-- creates tokens, the TLS listener answers downloads.
use latticeshield.Prelude.{
  ℕ, ◌≡◌, refl, ◌∙◌, ◌⊎◌, inl, inr, ◌≢◌, true, List, [], ◌∷◌, Option, none, some, Bool-cases, arith,
}
use latticeshield.Prelude.Bytes.{Bytes}
use latticeshield.Prelude.Dict.{Key, lookup, IsDict, keep_if, lookup-insert, lookup-remove}
use latticeshield.Bridge.VkShare.Store.{
  VkShareEntry, VkShareStore, is_live, create_token, vk_response,
}
use latticeshield.Bridge.VkShare.Tokens.{
  WellFormed, create_token_others, create_token-WellFormed, vk_response_cases,
  vk_response-WellFormed,
}

pub data Call (K : Type 0) : Type 0 where
  creates : (now : ℕ) (token : K) (vk : Bytes) (ttl : ℕ) → Call K
  downloads : (now : ℕ) (token : K) → Call K

-- No call creates this token again: tokens are random.
abbrev pub NotCreated : {K : Type 0} → K → List (Call K) → Type 0
NotCreated token [] = Unit {0}
NotCreated token (creates now other vk ttl ∷ cs) = (other ≢ token) × NotCreated token cs
NotCreated token (downloads now other ∷ cs) = NotCreated token cs

-- The token is gone, or its entry has been used.
abbrev pub IsSpent : {K : Type 0} ⦃key : Key K⦄ → K → VkShareStore K → Type 0
IsSpent token store =
    (lookup token store ≡ none)
    ⊎ ((e : VkShareEntry) × (lookup token store ≡ some e) × (e.used ≡ true))

keep_if_spent :
    (now : ℕ) (o o' : Option VkShareEntry)
    → o' ≡ keep_if (is_live now) o
    → (o ≡ none) ⊎ ((e : VkShareEntry) × (o ≡ some e) × (e.used ≡ true))
    → (o' ≡ none) ⊎ ((e : VkShareEntry) × (o' ≡ some e) × (e.used ≡ true))
keep_if_spent now none o' h s = inl h
keep_if_spent now (some e) o' h (inl s) = cc
keep_if_spent now (some e) o' h (inr (e', s, u)) = elim (Bool-cases (is_live now e)) [
  | inl live ↦ inr (e', h ∙ rw live s, u)
  | inr gone ↦ inl (h ∙ rw gone)
]

module _ {K : Type 0} ⦃key : Key K⦄ (sha256 : Bytes → Bytes) (max_tokens : ℕ) where
  pub after : Call K → VkShareStore K → VkShareStore K
  after (creates now token vk ttl) store = (create_token sha256 now token vk ttl max_tokens store).1
  after (downloads now token) store = (vk_response now token store).1

  pub run : List (Call K) → VkShareStore K → VkShareStore K
  run [] store = store
  run (c ∷ cs) store = run cs (after c store)

  after-WellFormed :
      (c : Call K) (store : VkShareStore K)
      → WellFormed max_tokens store
      → WellFormed max_tokens (after c store)
  unfolding after
  after-WellFormed (creates now token vk ttl) store w =
      create_token-WellFormed sha256 now token vk ttl max_tokens store w
  after-WellFormed (downloads now token) store w =
      vk_response-WellFormed now token store max_tokens w

  -- Any sequence of creations and downloads keeps the store well formed: no token stands twice, and
  -- there are at most `max_tokens` entries, where that was so at the start.
  pub run-WellFormed :
      (cs : List (Call K)) (store : VkShareStore K)
      → WellFormed max_tokens store
      → WellFormed max_tokens (run cs store)
  unfolding run
  run-WellFormed [] store w = w
  run-WellFormed (c ∷ cs) store w = run-WellFormed cs (after c store) (after-WellFormed c store w)

  download-IsSpent :
      (now : ℕ) (other token : K) (store : VkShareStore K)
      → IsDict store
      → IsSpent token store
      → IsSpent token (vk_response now other store).1
  download-IsSpent now other token store d s = elim (vk_response_cases now other store) [
    | inl (_, _, e) ↦ rw e s
    | inr (inl (_, _, _, _, e)) ↦
        rw (e, lookup-remove other token store d)
          (elim (Bool-cases (key.same other token)) [ inl h ↦ rw h (inl refl) | inr h ↦ rw h s ])
    | inr (inr (inl (_, _, _, _, _, e))) ↦ rw e s
    | inr (inr (inr (entry, found, _, _, _, e))) ↦
        rw (e, lookup-insert other token)
          (elim (Bool-cases (key.same other token)) [
            | inl h ↦ rw h (inr (record entry { used = true }, refl, refl))
            | inr h ↦ rw h s
          ])
  ]

  pub run-IsSpent :
      (cs : List (Call K)) (token : K) (store : VkShareStore K)
      → WellFormed max_tokens store
      → NotCreated token cs
      → IsSpent token store
      → IsSpent token (run cs store)
  unfolding run after
  run-IsSpent [] token store w n s = s
  run-IsSpent (creates now other vk ttl ∷ cs) token store w n s =
      run-IsSpent cs token _ (create_token-WellFormed sha256 now other vk ttl max_tokens store w)
        n.1
        (keep_if_spent now (lookup token store) _
          (create_token_others sha256 now other vk ttl max_tokens store token w.distinct n.0) s)
  run-IsSpent (downloads now other ∷ cs) token store w n s =
      run-IsSpent cs token _ (vk_response-WellFormed now other store max_tokens w) n
        (download-IsSpent now other token store w.distinct s)

  -- A spent token is never served.
  spent_not_served :
      (now : ℕ) (token : K) (store : VkShareStore K)
      → IsSpent token store
      → (vk_response now token store).0.status ≢ 200
  spent_not_served now token store s = elim (vk_response_cases now token store) [
    | inl (_, e, _) ↦ λ h. omega arith
    | inr (inl (_, _, _, e, _)) ↦ λ h. omega arith
    | inr (inr (inl (_, _, _, _, e, _))) ↦ λ h. omega arith
    | inr (inr (inr (entry, found, _, fresh, _, _))) ↦
        λ h. elim s [ inl gone ↦ cc | inr (e, at, spent) ↦ cc ]
  ]

  served_IsSpent :
      (now : ℕ) (token : K) (store : VkShareStore K)
      → (vk_response now token store).0.status ≡ 200
      → IsSpent token (vk_response now token store).1
  served_IsSpent now token store h = elim (vk_response_cases now token store) [
    | inl (_, e, _) ↦ absurd (omega arith)
    | inr (inl (_, _, _, e, _)) ↦ absurd (omega arith)
    | inr (inr (inl (_, _, _, _, e, _))) ↦ absurd (omega arith)
    | inr (inr (inr (entry, _, _, _, _, e))) ↦
        rw (e, lookup-insert token token, (key.same_iff token token).1 refl)
          (inr (record entry { used = true }, refl, refl))
  ]

  -- When a download of a token is answered with 200, then after any sequence of calls that does not
  -- create the same token again, no download of that token, at any time, is answered with 200.
  pub served_once :
      (now later : ℕ) (token : K) (store : VkShareStore K) (cs : List (Call K))
      → WellFormed max_tokens store
      → (vk_response now token store).0.status ≡ 200
      → NotCreated token cs
      → (vk_response later token (run cs (vk_response now token store).1)).0.status ≢ 200
  served_once now later token store cs w h n = spent_not_served later token _ (
      run-IsSpent cs token _ (vk_response-WellFormed now token store max_tokens w) n
        (served_IsSpent now token store h))
