-- ===== src/Policy/Collection/Laws.antt =====
-- The members of a collection: who may sign for it, the defaults, and what the JSON form of the
-- Fabric tools loses.
use fabric_common.Base.{
  ℕ, zero, suc, ◌+◌, ◌<◌, ◌≡◌, refl, ap, ◌∙◌, true, false, Option, none, some, List, [], ◌∷◌, map,
  Text, get_elem?, length, arith, All, ◌⊎◌, inl, inr,
}
use fabric_common.Base.Result.{ok}
use fabric_common.Policy.Proto.{
  MspRole, SignaturePolicy, signed_by, n_out_of, rules, build_msp_principal, role_type,
}
use fabric_common.Policy.Gate.{Gate, from_string}
use fabric_common.Policy.Gate.Print.{Clause, IsClause}
use fabric_common.Policy.Gate.Flat.{spaced_text, from_string-spaced, from_string_single}
use fabric_common.Policy.Collection.{
  CollectionSpec, CollectionConfig, StandardItem, signers_from, member_policy, msp_of,
  build_collection_config, from_standard_item, truthy, standard_spec,
}

signers_from-get_elem? :
    (k i : ℕ) (ms : List Text)
    → i < length ms
    → get_elem? (signers_from k ms) i ≡ some (signed_by (k + i))
unfolding signers_from
signers_from-get_elem? k i [] h = elim h [ ]
signers_from-get_elem? k zero (m ∷ ms) h = ground arith
signers_from-get_elem? k (suc i) (m ∷ ms) h =
    signers_from-get_elem? (suc k) i ms (omega arith) ∙ ground arith

get_elem?-map :
    {A B : Type 0} (f : A → B) (xs : List A) (i : ℕ) {x : A}
    → get_elem? xs i ≡ some x
    → get_elem? (map f xs) i ≡ some (f x)
get_elem?-map f [] i h = cc
get_elem?-map f (y ∷ xs) zero h = ground arith
get_elem?-map f (y ∷ xs) (suc i) h = get_elem?-map f xs i h

get_elem?-in : {A : Type 0} (xs : List A) (i : ℕ) {x : A} → get_elem? xs i ≡ some x → i < length xs
get_elem?-in [] i h = cc
get_elem?-in (y ∷ xs) zero h = omega arith
get_elem?-in (y ∷ xs) (suc i) h = omega (arith, get_elem?-in xs i h)

truthy-cases :
    (o : Option ℕ)
    → (((o ≡ none) ⊎ (o ≡ some 0)) × (truthy o ≡ none))
      ⊎ ((n : ℕ) × (o ≡ some (suc n)) × (truthy o ≡ some (suc n)))
truthy-cases none = inl (inl refl, refl)
truthy-cases (some zero) = inl (inr refl, refl)
truthy-cases (some (suc n)) = inr (n, refl, refl)

module _ {Bytes : Type 0} (encode : MspRole → Bytes) (decode : Bytes → MspRole) where
  -- A collection's policy asks for one signature of a member of a listed organisation: its i-th
  -- rule is signed by index i, and identity i is the MEMBER role of the i-th organisation.
  pub member_policy-any :
      (s : CollectionSpec Bytes) (i : ℕ) (m : Text)
      → get_elem? s.member_orgs i ≡ some m
      → let e = (build_collection_config encode decode s).member_orgs_policy in
        (rs : List SignaturePolicy) × (e.rule ≡ n_out_of 1 (rules rs))
        × (get_elem? rs i ≡ some (signed_by i))
        × (get_elem? e.identities i ≡ some (build_msp_principal encode 0 m))
  unfolding build_collection_config
  member_policy-any s i m h = (
    signers_from 0 s.member_orgs,
    refl,
    signers_from-get_elem? 0 i s.member_orgs (get_elem?-in s.member_orgs i h) ∙ ground arith,
    get_elem?-map (λ t. build_msp_principal encode 0 t) s.member_orgs i h,
  )

  -- The counts and the flags: an absent or zero maximum becomes the required count, any other is
  -- kept; a flag is off only where the caller turns it off; a block-to-live that is absent or zero
  -- is left out, any other is kept.
  pub build_collection_config_defaults :
      (s : CollectionSpec Bytes)
      → let c = build_collection_config encode decode s in
        ((((s.maximum_peer_count ≡ none) ⊎ (s.maximum_peer_count ≡ some 0))
            × (c.maximum_peer_count ≡ s.required_peer_count))
          ⊎ ((0 < c.maximum_peer_count) × (s.maximum_peer_count ≡ some c.maximum_peer_count)))
        × ((c.member_only_read ≡ true)
            ⊎ ((c.member_only_read ≡ false) × (s.member_only_read ≡ some false)))
        × ((c.member_only_write ≡ true)
            ⊎ ((c.member_only_write ≡ false) × (s.member_only_write ≡ some false)))
        × ((((s.block_to_live ≡ none) ⊎ (s.block_to_live ≡ some 0)) × (c.block_to_live ≡ none))
            ⊎ ((n : ℕ) × (s.block_to_live ≡ some (suc n)) × (c.block_to_live ≡ some (suc n))))
  unfolding build_collection_config
  build_collection_config_defaults s =
      (ground arith, ground arith, ground arith, truthy-cases s.block_to_live)

  -- An entry whose policy has a blank behind each comma, as the tools' own examples do, makes a
  -- collection of the first organisation alone.
  pub from_standard_item-spaced :
      (item : StandardItem) (g : Gate) (c : Clause) (cs : List Clause)
      → ((r : MspRole) → decode (encode r) ≡ r)
      → All IsClause (c ∷ cs)
      → item.policy ≡ spaced_text g c cs
      → (out : CollectionConfig Bytes) × (from_standard_item encode decode item ≡ ok out)
        × (out.member_orgs_policy ≡ member_policy encode decode (c.mspid ∷ []))
  unfolding from_standard_item
  from_standard_item-spaced item g c cs back h e =
      let ids = build_msp_principal encode (role_type c.role) c.mspid ∷ [] in
      let out =
        build_collection_config encode decode
          (standard_spec item (map (msp_of encode decode) ids)) in
      let parsed =
        ap (from_string encode) e
        ∙ (from_string-spaced encode g c cs h ∙ from_string_single encode g c h.0) in
      (
        out,
        rw (parsed, from_standard_item) refl,
        ap (λ (r : MspRole). member_policy encode decode (r.msp_identifier ∷ [])) (back _),
      )
