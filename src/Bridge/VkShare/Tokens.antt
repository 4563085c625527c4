-- ===== src/Bridge/VkShare/Tokens.antt =====
-- What one call of `create_token` or `vk_response` (latticeshield-bridge/src/vk_share.rs) does.
use latticeshield.Prelude.{
  ℕ, ◌+◌, ◌<◌, ◌≤◌, ◌≡◌, refl, sym, ap, ◌∙◌, ◌⊎◌, inl, inr, ◌≢◌, true, false, length, leb, leb→le,
  ltb, ltb→lt, le→ltb, none, some, Option-cases, Bool-cases, ok, err, arith,
}
use latticeshield.Prelude.Bytes.{Bytes}
use latticeshield.Prelude.Text.{Text}
use latticeshield.Prelude.Dict.{
  Key, lookup, insert, remove, retain, IsDict, keep_if, lookup-insert, lookup-retain,
  length-retain-le, length-remove-le, length-insert-le, insert-IsDict, remove-IsDict, retain-IsDict,
  insert_old,
}
use latticeshield.Bridge.VkShare.Hex.{hex_encode}
use latticeshield.Bridge.VkShare.Store.{
  too_many_tokens, VkShareEntry, VkShareStore, is_live, fresh_entry, vk_body, create_token,
  vk_response, http_json_response,
}

pub record WellFormed {K : Type 0} ⦃key : Key K⦄ (max_tokens : ℕ) (store : VkShareStore K)
    : Type 0 where
  pub distinct : IsDict store
  pub capped : length store ≤ max_tokens

module _ {K : Type 0} ⦃key : Key K⦄ (sha256 : Bytes → Bytes) where
  -- The two branches, by the number of entries that are left after eviction.
  pub create_token_cases :
      (now : ℕ) (token : K) (vk : Bytes) (ttl max_tokens : ℕ) (store : VkShareStore K)
      → ((max_tokens ≤ length (retain (is_live now) store))
          × (create_token sha256 now token vk ttl max_tokens store
              ≡ (err too_many_tokens, retain (is_live now) store)))
        ⊎ ((length (retain (is_live now) store) < max_tokens)
            × (create_token sha256 now token vk ttl max_tokens store ≡ (
              ok (token, hex_encode (sha256 vk)),
              insert token (fresh_entry sha256 now vk ttl) (retain (is_live now) store),
            )))
  unfolding create_token
  create_token_cases now token vk ttl max_tokens store =
      elim (Bool-cases (leb max_tokens (length (retain (is_live now) store)))) [
        | inl h ↦ inl (leb→le _ _ h, rw h)
        | inr h ↦ inr (ground arith, rw h)
      ]

  pub create_token-WellFormed :
      (now : ℕ) (token : K) (vk : Bytes) (ttl max_tokens : ℕ) (store : VkShareStore K)
      → WellFormed max_tokens store
      → WellFormed max_tokens (create_token sha256 now token vk ttl max_tokens store).1
  create_token-WellFormed now token vk ttl max_tokens store w =
      elim (create_token_cases now token vk ttl max_tokens store) [
        | inl (h, e) ↦ rw e (record {
          distinct = kept;
          capped = omega (arith, length-retain-le (is_live now) store, w.capped);
        })
        | inr (h, e) ↦ rw e (record {
          distinct = insert-IsDict token _ _ kept;
          capped = omega (
            arith,
            length-insert-le token (fresh_entry sha256 now vk ttl) (retain (is_live now) store),
          );
        })
      ]
    where
      kept : IsDict (retain (is_live now) store)
      kept = retain-IsDict (is_live now) store w.distinct

  -- In a store without repeated tokens, `create_token` leaves every other token's entry as it is while
  -- it is live and removes it once it has run out, also where the cap refuses the new token.
  pub create_token_others :
      (now : ℕ) (token : K) (vk : Bytes) (ttl max_tokens : ℕ) (store : VkShareStore K) (other : K)
      → IsDict store
      → token ≢ other
      → lookup other (create_token sha256 now token vk ttl max_tokens store).1
        ≡ keep_if (is_live now) (lookup other store)
  create_token_others now token vk ttl max_tokens store other d h =
      elim (create_token_cases now token vk ttl max_tokens store) [
        | inl (_, e) ↦ rw e (lookup-retain (is_live now) other store d)
        | inr (_, e) ↦
            rw (e, lookup-insert token other, apart) (lookup-retain (is_live now) other store d)
      ]
    where
      apart : key.same token other ≡ false
      apart = elim (Bool-cases (key.same token other)) [
        | inl s ↦ absurd (h ((key.same_iff token other).0 s))
        | inr s ↦ s
      ]

module _ {K : Type 0} ⦃key : Key K⦄ (now : ℕ) (token : K) (store : VkShareStore K) where
  -- The four arms of `vk_response`.
  pub vk_response_cases :
      ((lookup token store ≡ none)
        × ((vk_response now token store).0.status ≡ 404)
        × ((vk_response now token store).1 ≡ store))
      ⊎ ((e : VkShareEntry) × (lookup token store ≡ some e)
          × (e.expires_at < now)
          × ((vk_response now token store).0.status ≡ 410)
          × ((vk_response now token store).1 ≡ remove token store))
      ⊎ ((e : VkShareEntry) × (lookup token store ≡ some e)
          × (now ≤ e.expires_at)
          × (e.used ≡ true)
          × ((vk_response now token store).0.status ≡ 410)
          × ((vk_response now token store).1 ≡ store))
      ⊎ ((e : VkShareEntry) × (lookup token store ≡ some e)
          × (now ≤ e.expires_at)
          × (e.used ≡ false)
          × ((vk_response now token store).0 ≡ http_json_response 200 (vk_body e))
          × ((vk_response now token store).1 ≡ insert token (record e { used = true }) store))
  unfolding vk_response http_json_response
  vk_response_cases = elim (Option-cases (lookup token store)) [
    | inl h ↦ inl (h, rw (h, vk_response), rw (h, vk_response))
    | inr (e, h) ↦ inr (elim (Bool-cases (ltb e.expires_at now)) [
      | inl old ↦ inl (e, h, ltb→lt _ _ old, rw (h, vk_response, old), rw (h, vk_response, old))
      | inr live ↦ inr (elim (Bool-cases e.used) [
        | inl spent ↦ inl (
          e,
          h,
          ground arith,
          spent,
          rw (h, vk_response, live, spent),
          rw (h, vk_response, live, spent),
        )
        | inr fresh ↦ inr (
          e,
          h,
          ground arith,
          fresh,
          rw (h, vk_response, live, fresh),
          rw (h, vk_response, live, fresh),
        )
      ])
    ])
  ]

  pub vk_response-WellFormed :
      (max_tokens : ℕ)
      → WellFormed max_tokens store
      → WellFormed max_tokens (vk_response now token store).1
  vk_response-WellFormed max_tokens w = elim vk_response_cases [
    | inl (_, _, e) ↦ rw e w
    | inr (inl (_, _, _, _, e)) ↦ rw e (record {
      distinct = remove-IsDict token store w.distinct;
      capped = omega (arith, length-remove-le token store, w.capped);
    })
    | inr (inr (inl (_, _, _, _, _, e))) ↦ rw e w
    | inr (inr (inr (entry, found, _, _, _, e))) ↦ rw e (record {
      distinct = insert-IsDict token _ store w.distinct;
      capped =
          omega
            (arith, insert_old token (record entry { used = true }) entry store found, w.capped);
    })
  ]

module _ {K : Type 0} ⦃key : Key K⦄ (sha256 : Bytes → Bytes) where
  -- Where `create_token` returns the token and a fingerprint, a download of the token by `now +
  -- ttl` at the latest is answered with 200 and the body for the key, and the fingerprint is the
  -- hexadecimal SHA-256 of the key.
  pub created_then_served :
      (now later : ℕ) (token : K) (vk : Bytes) (ttl max_tokens : ℕ) (store store' : VkShareStore K)
      (fingerprint : Text)
      → create_token sha256 now token vk ttl max_tokens store ≡ (ok (token, fingerprint), store')
      → later ≤ now + ttl
      → ((vk_response later token store').0
          ≡ http_json_response 200 (vk_body (fresh_entry sha256 now vk ttl)))
        × (fingerprint ≡ hex_encode (sha256 vk))
  unfolding vk_response
  created_then_served now later token vk ttl max_tokens store store' fingerprint e h =
      elim (create_token_cases sha256 now token vk ttl max_tokens store) [
        | inl (_, f) ↦ cc
        | inr (_, f) ↦
            let both = sym f ∙ e in
            rw
              (
                ← ap (λ r. r.1) both,
                (lookup-insert token token (fresh_entry sha256 now vk ttl)
                    (retain (is_live now) store)),
                (key.same_iff token token).1 refl,
                vk_response,
                le→ltb (now + ttl) later h,
              )
              (refl, cc)
      ]
