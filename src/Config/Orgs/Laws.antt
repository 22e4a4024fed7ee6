-- ===== src/Config/Orgs/Laws.antt =====
-- What the edits of an organisation write, and what they leave alone.
use Prim.Native.String.{String}
use fabric_common.Base.{
  ◌≡◌, refl, sym, ap, ◌≢◌, ◌⊎◌, inl, inr, Bool, true, false, Option, none, some, List, [], ◌∷◌,
  ◌++◌, Option-cases, Bool-cases,
}
use fabric_common.Base.Result.{ok, err, ok_inj, Result-cases}
use fabric_common.Config.Json.{
  Json, Failure, type_error, io_error, get_path, edit_at, assign_here, delete_here, truthy,
}
use fabric_common.Config.Json.Paths.{
  differ, get_path-assign, get_path-delete_at, Apart, edit_at-Spares-Apart, edit_at-Spares_below,
  assign_here-Spares, delete_here-Spares, get_path-behind,
}
use fabric_common.Config.Orgs.{
  orgs_path, org_path, org_values, delete_msp, one_of_role, assign_dictator, get_org,
  get_anchor_peers, AnchorPeer, anchor_peers_json, new_anchor_peers, set_anchor_peers, PemFiles,
  org_json, read_all, create_or_update_org, add_admin, admins_path,
}

-- A deleted organisation reads as undefined, and every other organisation of the group reads as
-- before.
pub get_org-delete_msp :
    (org other target : String) (j j' : Json)
    → org ≢ other
    → delete_msp org target j ≡ ok j'
    → (get_org org target j' ≡ ok none) × (get_org other target j' ≡ get_org other target j)
unfolding delete_msp get_org get_path
get_org-delete_msp org other target j j' ne h = (
  get_path-delete_at (orgs_path target) org j j' h,
  edit_at-Spares_below (orgs_path target) (delete_here org) (other ∷ [])
      (delete_here-Spares org other [] ne) j j' h,
)

-- The policy of the Admins of a group becomes "one ADMIN of this MSP", and every organisation reads
-- as before.
pub get_path-assign_dictator :
    (mspid target org : String) (j j' : Json)
    → assign_dictator mspid target j ≡ ok j'
    → (get_path
          ("channel_group" ∷ "groups" ∷ target ∷ "policies" ∷ "Admins" ∷ "policy" ∷ [])
          (some j')
        ≡ ok (some (one_of_role mspid "ADMIN")))
      × (get_org org target j' ≡ get_org org target j)
unfolding assign_dictator get_org get_path
get_path-assign_dictator mspid target org j j' h =
    let p = "channel_group" ∷ "groups" ∷ target ∷ "policies" ∷ "Admins" ∷ [] in
    let f = assign_here "policy" (one_of_role mspid "ADMIN") in
    let apart : Apart p (org_path target org) =
      inr (refl, inr (refl, inr (refl, inl (differ "policies" "groups" refl)))) in
    (
      get_path-assign p "policy" (one_of_role mspid "ADMIN") j j' h,
      edit_at-Spares-Apart p f (org_path target org) apart j j' h,
    )

read_here :
    (peers : List AnchorPeer)
    → get_path ("value" ∷ "anchor_peers" ∷ []) (some (new_anchor_peers peers))
      ≡ ok (some (anchor_peers_json peers))
unfolding get_path
read_here peers = refl

abbrev peers_path : String → List String
peers_path org =
    "channel_group" ∷ "groups" ∷ "Application" ∷ "groups" ∷ org ∷ "values" ∷ "AnchorPeers" ∷ []

peers_path-Apart :
    (org other : String) → org ≢ other → Apart (peers_path org ++ "value" ∷ []) (peers_path other)
peers_path-Apart org other ne = inr (refl, inr (refl, inr (refl, inr (refl, inl ne))))

org_values-Apart : (org other : String) → org ≢ other → Apart (org_values org) (peers_path other)
org_values-Apart org other ne = inr (refl, inr (refl, inr (refl, inr (refl, inl ne))))

read_new :
    (org : String) (peers : List AnchorPeer) (j : Json)
    → get_path (peers_path org) (some j) ≡ ok (some (new_anchor_peers peers))
    → get_path (peers_path org ++ "value" ∷ "anchor_peers" ∷ []) (some j)
      ≡ ok (some (anchor_peers_json peers))
read_new org peers j h =
    get_path-behind (peers_path org) ("value" ∷ "anchor_peers" ∷ []) (some j) h (read_here peers)

-- What is written for the anchor peers of an organisation, whether it had some or not, is read back
-- under `AnchorPeers.value.anchor_peers`, and those of every other organisation read as before.
pub get_anchor_peers-set_anchor_peers :
    (org other : String) (peers : List AnchorPeer) (j j' : Json)
    → org ≢ other
    → set_anchor_peers org peers j ≡ ok j'
    → (get_path
          ("channel_group" ∷ "groups" ∷ "Application" ∷ "groups" ∷ org ∷ "values" ∷ "AnchorPeers"
            ∷ "value" ∷ "anchor_peers" ∷ [])
          (some j')
        ≡ ok (some (anchor_peers_json peers)))
      × (get_anchor_peers other j' ≡ get_anchor_peers other j)
unfolding set_anchor_peers get_anchor_peers
get_anchor_peers-set_anchor_peers org other peers j j' ne h =
    elim (Result-cases (get_anchor_peers org j)) [
      | inr (e, f) ↦ absurd (cc (rw f at h))
      | inl (old, f) ↦ elim (Bool-cases (truthy old)) [
        | inl t ↦
            let k = rw t at rw f at h in
            (
              get_path-assign (peers_path org ++ "value" ∷ []) "anchor_peers"
                  (anchor_peers_json peers) j j' k,
              edit_at-Spares-Apart (peers_path org ++ "value" ∷ [])
                  (assign_here "anchor_peers" (anchor_peers_json peers)) (peers_path other)
                  (peers_path-Apart org other ne) j j' k,
            )
        | inr t ↦
            let k = rw t at rw f at h in
            (
              read_new org peers j'
                  (get_path-assign (org_values org) "AnchorPeers" (new_anchor_peers peers) j j' k),
              edit_at-Spares-Apart (org_values org)
                  (assign_here "AnchorPeers" (new_anchor_peers peers)) (peers_path other)
                  (org_values-Apart org other ne) j j' k,
            )
      ]
    ]

-- What a run that writes has read and written.
abbrev Written :
    (String → Option String) → String → String → String → PemFiles → Json → Json → Type 0
Written to_base64 org mspid target pems j j' =
    (admins : List Json) × (roots : List Json) × (tls_roots : List Json) × (read_all to_base64
        pems.admins
      ≡ ok admins)
    × (read_all to_base64 pems.root_certs ≡ ok roots)
    × (read_all to_base64 pems.tls_root_certs ≡ ok tls_roots)
    × (edit_at (orgs_path target) (assign_here org (org_json mspid admins roots tls_roots)) j
        ≡ ok j')

create_or_update_org-Written :
    (to_base64 : String → Option String) (org mspid target : String) (pems : PemFiles) (j j' : Json)
    → create_or_update_org to_base64 org mspid target pems false j ≡ ok j'
    → Written to_base64 org mspid target pems j j'
unfolding create_or_update_org
create_or_update_org-Written to_base64 org mspid target pems j j' h =
    elim (Result-cases (get_path (orgs_path target) (some j))) [
      | inr (e, f) ↦ absurd (cc (rw f at h))
      | inl (groups, f) ↦ elim (Result-cases (read_all to_base64 pems.admins)) [
        | inr (e, a) ↦ absurd (cc (rw a at rw f at h))
        | inl (admins, a) ↦ elim (Result-cases (read_all to_base64 pems.root_certs)) [
          | inr (e, r) ↦ absurd (cc (rw r at rw a at rw f at h))
          | inl (roots, r) ↦ elim (Result-cases (read_all to_base64 pems.tls_root_certs)) [
            | inr (e, t) ↦ absurd (cc (rw t at rw r at rw a at rw f at h))
            | inl (tls_roots, t) ↦
                (admins, roots, tls_roots, a, r, t, rw t at rw r at rw a at rw f at h)
          ]
        ]
      ]
    ]

created :
    (to_base64 : String → Option String) (org other mspid target : String) (pems : PemFiles)
    (j j' : Json)
    → org ≢ other
    → Written to_base64 org mspid target pems j j'
    → ((admins : List Json) × (roots : List Json) × (tls_roots : List Json) × (read_all to_base64
            pems.admins
          ≡ ok admins)
        × (read_all to_base64 pems.root_certs ≡ ok roots)
        × (read_all to_base64 pems.tls_root_certs ≡ ok tls_roots)
        × (get_org org target j' ≡ ok (some (org_json mspid admins roots tls_roots))))
      × (get_org other target j' ≡ get_org other target j)
unfolding get_org get_path
created to_base64 org other mspid target pems j j' ne (admins, roots, tls_roots, a, r, t, k) =
    let v = org_json mspid admins roots tls_roots in
    (
      (admins, roots, tls_roots, a, r, t, get_path-assign (orgs_path target) org v j j' k),
      edit_at-Spares_below (orgs_path target) (assign_here org v) (other ∷ [])
          (assign_here-Spares org other v [] ne) j j' k,
    )

-- That the group has no such organisation, or that what it holds there counts as false.
abbrev pub IsMissing : String → String → Json → Type 0
IsMissing org target j =
    (get_org org target j ≡ ok none)
    ⊎ ((old : Json) × (get_org org target j ≡ ok (some old)) × (truthy (some old) ≡ false))

-- That the group has the organisation.
abbrev pub IsThere : String → String → Json → Type 0
IsThere org target j =
    (old : Json) × (get_org org target j ≡ ok (some old)) × (truthy (some old) ≡ true)

asked_to_skip :
    (to_base64 : String → Option String) (org mspid target : String) (pems : PemFiles) (j j' : Json)
    → create_or_update_org to_base64 org mspid target pems true j ≡ ok j'
    → ((j' ≡ j) × IsThere org target j)
      ⊎ (IsMissing org target j × Written to_base64 org mspid target pems j j')
unfolding create_or_update_org
asked_to_skip to_base64 org mspid target pems j j' h = elim (Result-cases (get_org org target j)) [
  | inr (e, f) ↦ absurd (cc (rw f at h))
  | inl (none, f) ↦
      inr (inl f, create_or_update_org-Written to_base64 org mspid target pems j j' (rw f at h))
  | inl (some old, f) ↦ elim (Bool-cases (truthy (some old))) [
    | inl t ↦ inl (sym (ok_inj (rw t at rw f at h)), (old, f, t))
    | inr t ↦ inr (
      inr (old, f, t),
      create_or_update_org-Written to_base64 org mspid target pems j j' (rw t at rw f at h),
    )
  ]
]

-- An organisation that exists is left as it is where the caller asks to skip it. Where the caller
-- does not, or no such organisation is there, each pem file was read, and the organisation reads as
-- the value that holds their contents. Every other organisation of the group reads as before.
pub get_org-create_or_update_org :
    (to_base64 : String → Option String) (org other mspid target : String) (pems : PemFiles)
    (skip : Bool) (j j' : Json)
    → org ≢ other
    → create_or_update_org to_base64 org mspid target pems skip j ≡ ok j'
    → (((skip ≡ true) × IsThere org target j × (j' ≡ j))
        ⊎ (((skip ≡ false) ⊎ IsMissing org target j)
            × ((admins : List Json) × (roots : List Json) × (tls_roots : List Json) × (read_all
                    to_base64 pems.admins
                  ≡ ok admins)
                × (read_all to_base64 pems.root_certs ≡ ok roots)
                × (read_all to_base64 pems.tls_root_certs ≡ ok tls_roots)
                × (get_org org target j' ≡ ok (some (org_json mspid admins roots tls_roots))))))
      × (get_org other target j' ≡ get_org other target j)
get_org-create_or_update_org to_base64 org other mspid target pems true j j' ne h =
    elim (asked_to_skip to_base64 org mspid target pems j j' h) [
      | inl (e, there) ↦ (inl (refl, there, e), ap (get_org other target) e)
      | inr (missing, k) ↦
          let w = created to_base64 org other mspid target pems j j' ne k in
          (inr (inr missing, w.0), w.1)
    ]
get_org-create_or_update_org to_base64 org other mspid target pems false j j' ne h =
    let k = create_or_update_org-Written to_base64 org mspid target pems j j' h in
    let w = created to_base64 org other mspid target pems j j' ne k in (inr (inl refl, w.0), w.1)

skipped :
    (to_base64 : String → Option String) (org mspid target : String) (pems : PemFiles) (j j' : Json)
    → Written to_base64 org mspid target pems j j'
    → create_or_update_org to_base64 org mspid target pems true j' ≡ ok j'
unfolding create_or_update_org get_org
skipped to_base64 org mspid target pems j j' (admins, roots, tls_roots, a, r, t, k) =
    rw (get_path-assign (orgs_path target) org (org_json mspid admins roots tls_roots) j j' k) refl

-- To create an organisation and then to create it again with `skipIfExist` changes nothing more.
pub create_or_update_org-again :
    (to_base64 : String → Option String) (org mspid target : String) (pems : PemFiles) (skip : Bool)
    (j j' : Json)
    → create_or_update_org to_base64 org mspid target pems skip j ≡ ok j'
    → create_or_update_org to_base64 org mspid target pems true j' ≡ ok j'
create_or_update_org-again to_base64 org mspid target pems true j j' h =
    elim (asked_to_skip to_base64 org mspid target pems j j' h) [
      | inl (e, old) ↦ rw e (rw e at h)
      | inr (missing, k) ↦ skipped to_base64 org mspid target pems j j' k
    ]
create_or_update_org-again to_base64 org mspid target pems false j j' h =
    skipped to_base64 org mspid target pems j j'
      (create_or_update_org-Written to_base64 org mspid target pems j j' h)

-- `addAdmin` adds no admin: if it returns, the configuration is the old one. On an organisation that
-- exists it returns nothing but an error.
pub add_admin-never_adds :
    (to_base64 : String → Option String) (org target admin : String) (j : Json)
    → ((add_admin to_base64 org target admin j ≡ ok j)
        × ((get_org org target j ≡ ok none)
            ⊎ ((old : Json) × (get_org org target j ≡ ok (some old))
                × (truthy (some old) ≡ false))))
      ⊎ ((e : Failure) × (add_admin to_base64 org target admin j ≡ err e))
unfolding add_admin
add_admin-never_adds to_base64 org target admin j = elim (Result-cases (get_org org target j)) [
  | inr (e, h) ↦ inr (e, rw h refl)
  | inl (none, h) ↦ inl (rw h refl, inl h)
  | inl (some old, h) ↦ elim (Bool-cases (truthy (some old))) [
    | inr f ↦ inl (rw h (rw f refl), inr (old, h, f))
    | inl t ↦ elim (Option-cases (to_base64 admin)) [
      | inl u ↦ inr (io_error, rw h (rw (t, u) refl))
      | inr (cert, u) ↦ elim (Result-cases (get_path (admins_path org target) (some j))) [
        | inl (admins, v) ↦ inr (type_error, rw h (rw (t, u) (rw v refl)))
        | inr (e, v) ↦ inr (e, rw h (rw (t, u) (rw v refl)))
      ]
    ]
  ]
]
