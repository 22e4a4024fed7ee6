-- ===== src/Config/Orderer/Laws.antt =====
-- What the edits of the ordering service write, and what they leave alone.
use Prim.Native.String.{String}
use text.Mathlib.Text.{◌==◌ as str_eq}
use text.Mathlib.TextEquality.{eq_iff}
use fabric_common.Base.{
  ◌≡◌, refl, sym, ap, ◌∙◌, ◌⊎◌, inl, inr, Bool, true, false, Option, none, some, List, [], ◌∷◌,
  arith, ◌++◌, Bool-cases, some_inj, if◌then◌else◌, not, ◌&&◌, map, codes, contains,
}
use fabric_common.Base.Result.{ok, ◌>>=◌, ok_inj, Result-cases}
use fabric_common.Config.Json.{
  Json, null, bool, number, object, array, string, get_path, edit_at, assign_here, delete_here,
  truthy, Items, nil, cons, arr, obj,
}
use fabric_common.Config.Json.Paths.{
  differ, get_path-assign, get_path-delete_at, get_path-edit_at, get_path-behind, assign-assign,
  edit_at-Spares_below, assign_here-Spares, delete_here-Spares,
}
use fabric_common.Config.Orgs.{push, push_here}
use fabric_common.Config.Orderer.{
  addresses_path, orderer_values, consensus_value, metadata_path, capabilities_json, set_capability,
  includes, add_orderer_address, get_orderer_addresses, set_consensus_type, Consenter,
  consenter_json, read_consenters, set_consensus_metadata, assign_given, maintenance_mode, given,
  default_options,
}

-- Each text of an array occurs in it once.
abbrev pub distinct : Items → Bool
unfolding includes
distinct nil = true
distinct (cons (string s) vs) = not (includes s vs) && distinct vs
distinct (cons _ vs) = distinct vs

includes-push_self : (s : String) (vs : Items) → includes s (push (string s) vs) ≡ true
unfolding includes push
includes-push_self s nil = ground (arith, eq_iff s s)
includes-push_self s (cons (string t) vs) = ground (arith, includes-push_self s vs)
includes-push_self s (cons _ vs) = includes-push_self s vs

includes-push_other :
    (s t : String) (vs : Items)
    → str_eq s t ≡ false
    → includes s (push (string t) vs) ≡ includes s vs
unfolding includes push
includes-push_other s t nil h = ground (arith, eq_iff s t, eq_iff t s)
includes-push_other s t (cons (string u) vs) h = ground (arith, includes-push_other s t vs h)
includes-push_other s t (cons _ vs) h = includes-push_other s t vs h

distinct-push :
    (s : String) (vs : Items)
    → includes s vs ≡ false
    → distinct vs ≡ true
    → distinct (push (string s) vs) ≡ true
unfolding includes push
distinct-push s nil h k = refl
distinct-push s (cons (string t) vs) h k =
    ground (arith, eq_iff s t, eq_iff t s, includes-push_other t s vs, distinct-push s vs)
distinct-push s (cons null vs) h k = distinct-push s vs h k
distinct-push s (cons (bool _) vs) h k = distinct-push s vs h k
distinct-push s (cons (number _) vs) h k = distinct-push s vs h k
distinct-push s (cons (array _) vs) h k = distinct-push s vs h k
distinct-push s (cons (object _) vs) h k = distinct-push s vs h k

-- A run that returns found an array of addresses, or a text that includes the address, where it
-- changes nothing. It leaves an array that holds the new address, and one in which each text occurs
-- once if that was so before. To add the same address again changes nothing.
pub add_orderer_address-distinct :
    (addr : String) (j j' : Json)
    → add_orderer_address addr j ≡ ok j'
    → (((vs : Items) × (vs' : Items) × (get_orderer_addresses j ≡ ok (some (array vs)))
          × (get_orderer_addresses j' ≡ ok (some (array vs')))
          × (includes addr vs' ≡ true)
          × ((distinct vs ≡ false) ⊎ (distinct vs' ≡ true)))
        ⊎ ((s : String) × (get_orderer_addresses j ≡ ok (some (string s)))
            × (contains (codes s) (codes addr) ≡ true)
            × (j' ≡ j)))
      × (add_orderer_address addr j' ≡ ok j')
unfolding add_orderer_address get_orderer_addresses push_here
add_orderer_address-distinct addr j j' h = elim (Result-cases (get_path addresses_path (some j))) [
  | inr (e, f) ↦ absurd (cc (rw f at h))
  | inl (none, f) ↦ absurd (cc (rw f at h))
  | inl (some null, f) ↦ absurd (cc (rw f at h))
  | inl (some (bool _), f) ↦ absurd (cc (rw f at h))
  | inl (some (number _), f) ↦ absurd (cc (rw f at h))
  | inl (some (string s), f) ↦ elim (Bool-cases (contains (codes s) (codes addr))) [
    | inl t ↦
        let e = ok_inj (rw t at rw f at h) in
        (inr (s, f, t, sym e), ap (add_orderer_address addr) (sym e) ∙ h)
    | inr t ↦ absurd (cc (rw t at rw f at h))
  ]
  | inl (some (object _), f) ↦ absurd (cc (rw f at h))
  | inl (some (array vs), f) ↦ elim (Bool-cases (includes addr vs)) [
    | inl t ↦
        let e = ok_inj (rw t at rw f at h) in
        let once : (distinct vs ≡ false) ⊎ (distinct vs ≡ true) = elim (Bool-cases (distinct vs)) [
          | inl d ↦ inr d
          | inr d ↦ inl d
        ] in
        (inl (vs, vs, f, rw (← e) f, t, once), ap (add_orderer_address addr) (sym e) ∙ h)
    | inr t ↦
        let (c, c', before, step, after) =
          get_path-edit_at addresses_path (push_here (string addr)) j j' (rw t at rw f at h) in
        let e : c ≡ array vs = some_inj (ok_inj (sym before ∙ f)) in
        let e' : c' ≡ array (push (string addr) vs) = ok_inj (sym (rw e at step)) in
        let after' = rw e' at after in
        let there = includes-push_self addr vs in
        (
          inl (
            vs,
            push (string addr) vs,
            f,
            after',
            there,
            elim (Bool-cases (distinct vs)) [
              | inl d ↦ inr (distinct-push addr vs t d)
              | inr d ↦ inl d
            ],
          ),
          rw (after', there) refl,
        )
  ]
]

-- What is written for the capabilities of the ordering service, whether it had some or not, is read
-- back: an object whose only key is the version's.
pub get_path-set_capability :
    (version : String) (j j' : Json)
    → set_capability version j ≡ ok j'
    → get_path (orderer_values ++ "Capabilities" ∷ "value" ∷ "capabilities" ∷ []) (some j')
      ≡ ok (some (capabilities_json version))
unfolding set_capability get_path
get_path-set_capability version j j' h =
    let p = orderer_values ++ "Capabilities" ∷ [] in
    elim (Result-cases (get_path p (some j))) [
      | inr (e, f) ↦ absurd (cc (rw f at h))
      | inl (old, f) ↦ elim (Bool-cases (truthy old)) [
        | inl t ↦
            get_path-assign (p ++ "value" ∷ []) "capabilities" (capabilities_json version) j j'
              (rw t at rw f at h)
        | inr t ↦
            get_path-behind p ("value" ∷ "capabilities" ∷ []) (some j')
              (get_path-assign orderer_values "Capabilities"
                (obj (
                  ("mod_policy", string "Admins")
                  ∷ ("value", obj (("capabilities", capabilities_json version) ∷ []))
                  ∷ []))
                j j' (rw t at rw f at h))
              refl
      ]
    ]

same :
    (key : String) (j j' : Json)
    → edit_at orderer_values (delete_here "KafkaBrokers") j ≡ ok j'
    → get_path (consensus_value ++ key ∷ []) (some j')
      ≡ get_path (consensus_value ++ key ∷ []) (some j)
same key j j' h =
    edit_at-Spares_below orderer_values (delete_here "KafkaBrokers")
      ("ConsensusType" ∷ "value" ∷ key ∷ [])
      (delete_here-Spares "KafkaBrokers" "ConsensusType" ("value" ∷ key ∷ [])
        (differ "KafkaBrokers" "ConsensusType" refl))
      j j' h

-- `setConsensusType` returns for `etcdraft` alone; then that type is read back, the brokers are gone,
-- and the state of the consensus and the metadata read as before.
pub get_path-set_consensus_type :
    (type : String) (j j' : Json)
    → set_consensus_type type j ≡ ok j'
    → (type ≡ "etcdraft")
      × (get_path (consensus_value ++ "type" ∷ []) (some j') ≡ ok (some (string type)))
      × (get_path (orderer_values ++ "KafkaBrokers" ∷ []) (some j') ≡ ok none)
      × (get_path metadata_path (some j') ≡ get_path metadata_path (some j))
      × (get_path (consensus_value ++ "state" ∷ []) (some j')
          ≡ get_path (consensus_value ++ "state" ∷ []) (some j))
unfolding set_consensus_type
get_path-set_consensus_type type j j' h = elim (Bool-cases (str_eq type "etcdraft")) [
  | inr t ↦ absurd (cc (rw t at h))
  | inl t ↦ elim (Result-cases (edit_at consensus_value (assign_here "type" (string type)) j)) [
    | inr (e, f) ↦ absurd (cc (rw f at rw t at h))
    | inl (i, f) ↦
        let k = rw f at rw t at h in
        let set_type = assign_here "type" (string type) in
        (
          (eq_iff type "etcdraft").0 t,
          same "type" i j' k ∙ get_path-assign consensus_value "type" (string type) j i f,
          get_path-delete_at orderer_values "KafkaBrokers" i j' k,
          same "metadata" i j' k
              ∙ edit_at-Spares_below consensus_value set_type ("metadata" ∷ [])
                  (assign_here-Spares "type" "metadata" (string type) []
                    (differ "type" "metadata" refl))
                  j i f,
          same "state" i j' k
              ∙ edit_at-Spares_below consensus_value set_type ("state" ∷ [])
                  (assign_here-Spares "type" "state" (string type) [] (differ "type" "state" refl))
                  j i f,
        )
  ]
]

-- Of two calls of `maintenanceMode` the last counts; the state it asks for is read back, and the type
-- and the metadata of the consensus read as before.
pub maintenance_mode-maintenance_mode :
    (before after : Bool) (j i j' : Json)
    → maintenance_mode before j ≡ ok i
    → maintenance_mode after i ≡ ok j'
    → (maintenance_mode after j ≡ ok j')
      × (get_path (consensus_value ++ "state" ∷ []) (some j')
          ≡ ok (some (string (if after then "STATE_MAINTENANCE" else "STATE_NORMAL"))))
      × (get_path (consensus_value ++ "type" ∷ []) (some j')
          ≡ get_path (consensus_value ++ "type" ∷ []) (some i))
      × (get_path metadata_path (some j') ≡ get_path metadata_path (some i))
unfolding maintenance_mode
maintenance_mode-maintenance_mode before after j i j' h k =
    let v = string (if after then "STATE_MAINTENANCE" else "STATE_NORMAL") in
    let w = string (if before then "STATE_MAINTENANCE" else "STATE_NORMAL") in
    (
      sym (assign-assign consensus_value "state" w v j i h) ∙ k,
      get_path-assign consensus_value "state" v i j' k,
      edit_at-Spares_below consensus_value (assign_here "state" v) ("type" ∷ [])
          (assign_here-Spares "state" "type" v [] (differ "state" "type" refl)) i j' k,
      edit_at-Spares_below consensus_value (assign_here "state" v) ("metadata" ∷ [])
          (assign_here-Spares "state" "metadata" v [] (differ "state" "metadata" refl)) i j' k,
    )

new :
    (to_base64 : String → Option String) (cs : List Consenter) (options : Option Json) (j j' : Json)
    → (read_consenters to_base64 cs >>= λ vs.
        edit_at consensus_value
          (assign_here "metadata"
            (obj (("consenters", arr vs) ∷ ("options", given options default_options) ∷ [])))
          j)
      ≡ ok j'
    → (vs : List Json) × (read_consenters to_base64 cs ≡ ok vs)
      × (get_path (metadata_path ++ "consenters" ∷ []) (some j') ≡ ok (some (arr vs)))
unfolding get_path
new to_base64 cs options j j' h = elim (Result-cases (read_consenters to_base64 cs)) [
  | inr (e, r) ↦ absurd (cc (rw r at h))
  | inl (vs, r) ↦ (
    vs,
    r,
    get_path-behind metadata_path ("consenters" ∷ []) (some j')
        (get_path-assign consensus_value "metadata"
          (obj (("consenters", arr vs) ∷ ("options", given options default_options) ∷ [])) j j'
          (rw r at h))
        refl,
  )
]

-- New consenters: where there is metadata they are written as the caller gives them, the paths of
-- their certificates unread; where there is none, they are written with the files' contents and with
-- the port 7050 where it was left out.
pub get_path-set_consensus_metadata :
    (to_base64 : String → Option String) (cs : List Consenter) (options : Option Json) (j j' : Json)
    → set_consensus_metadata to_base64 (some cs) options j ≡ ok j'
    → ((old : Json) × (get_path metadata_path (some j) ≡ ok (some old))
        × (get_path (metadata_path ++ "consenters" ∷ []) (some j')
            ≡ ok (some (arr (map consenter_json cs)))))
      ⊎ ((vs : List Json) × (read_consenters to_base64 cs ≡ ok vs)
          × (get_path (metadata_path ++ "consenters" ∷ []) (some j') ≡ ok (some (arr vs))))
unfolding set_consensus_metadata assign_given get_path
get_path-set_consensus_metadata to_base64 cs options j j' h =
    elim (Result-cases (get_path metadata_path (some j))) [
      | inr (e, f) ↦ absurd (cc (rw f at h))
      | inl (none, f) ↦ inr (new to_base64 cs options j j' (rw f at h))
      | inl (some old, f) ↦ elim (Bool-cases (truthy (some old))) [
        | inr t ↦ inr (new to_base64 cs options j j' (rw t at rw f at h))
        | inl t ↦ elim (Result-cases (assign_given metadata_path "options" options j)) [
          | inr (e, g) ↦ absurd (cc (rw g at rw t at rw f at h))
          | inl (i, g) ↦ inl (
            old,
            f,
            get_path-assign metadata_path "consenters" (arr (map consenter_json cs)) i j'
                (rw g at rw t at rw f at h),
          )
        ]
      ]
    ]
