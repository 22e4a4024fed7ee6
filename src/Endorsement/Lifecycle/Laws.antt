-- ===== src/Endorsement/Lifecycle/Laws.antt =====
-- What an operation of the lifecycle knows of the answers when it returns, and the handler that it
-- leaves behind.
use fabric_common.Base.{
  ℕ, ◌≡◌, refl, ◌⊎◌, inl, inr, Bool, true, false, Option, none, some, List, [], ◌∷◌, map, ◌||◌, not,
  Text, codes, is_empty, all, any, arith, Bool-cases, all_mono, if◌then◌else◌,
}
use mathlib.Core.Path.{subst}
use fabric_common.Base.Result.{Result, ok, err, ok_inj, Result-cases}
use fabric_common.Endorsement.Check.{
  Bytes, Response, Endorsement, Proposal, Thrown, read_error, endorse_all, succeeded,
}
use fabric_common.Endorsement.Check.Laws.{is_failure, endorse_all-ok}
use fabric_common.Endorsement.Manager.{
  Request, Sdk, Manager, set_result_handler, send, send-assert_result, send-keeps_handler,
}
use fabric_common.Endorsement.Lifecycle.{
  is_given, has_installed, has_no_change, has_no_definition, sparing, skip_if_installed,
  skip_if_no_change, skip_if_no_definition, Answer, responses_of, decode_all, Properties,
  Definition, request, install_chaincode, finish_install, approve_for_my_org,
  query_chaincode_definition, source_of, property_assign, shown,
}

-- Each answer succeeded or has the message that is spared, and the flag is up or some succeeded.
abbrev pub IsSettled : {E : Type 0} → (Response → Bool) → Proposal E → Bool → Type 0
IsSettled spared r flag =
    (is_empty r.errors ≡ true)
    × (all (λ e. succeeded e || spared e.response) r.responses ≡ true)
    × ((flag ≡ true) ⊎ (any succeeded r.responses ≡ true))

spared_or_succeeded :
    (spared : Response → Bool) (es : List Endorsement)
    → all (λ e. not (is_failure (sparing spared) e)) es ≡ true
    → (all (λ e. succeeded e || spared e.response) es ≡ true)
      × ((all spared (map (λ e. e.response) es) ≡ true) ⊎ (any succeeded es ≡ true))
spared_or_succeeded spared [] h = (refl, inl refl)
spared_or_succeeded spared (e ∷ es) h = elim (Bool-cases (succeeded e)) [
  | inl t ↦ (rw t (spared_or_succeeded spared es (rw t at h)).0, inr (rw t refl))
  | inr t ↦ elim (Bool-cases (spared e.response)) [
    | inl u ↦
        let (k, f) = spared_or_succeeded spared es (rw (t, u) at h) in (rw (t, u) k, rw (t, u) f)
    | inr u ↦ absurd (cc (rw (t, u) at h))
  ]
]

module _ {E Payload Signed : Type 0} (sdk : Sdk E Payload Signed) where
  sent-IsSettled :
      (spared : Response → Bool) (q : Request) (timeout : Option ℕ) (m : Manager E Payload)
      {r : Proposal E}
      → m.assert_proposal_result ≡ some (endorse_all (sparing spared))
      → (send sdk q timeout m).0 ≡ ok r
      → IsSettled spared r (all spared (responses_of r))
  sent-IsSettled spared q timeout m {r} h k =
      let (out, f) = send-assert_result sdk q timeout m (endorse_all (sparing spared)) h k in
      let (e, c, d) = endorse_all-ok (sparing spared) r out f in
      let (a, b) = spared_or_succeeded spared r.responses d in (c, a, b)

  finished :
      {Label : Type 0} (decode : Bytes → Option Label) (package_id : Option Text)
      (sent : Result (Thrown E) (Proposal E)) (next : Manager E Payload)
      → next.assert_proposal_result ≡ some (skip_if_installed package_id)
      → ((r : Proposal E)
          → sent ≡ ok r
          → IsSettled
              (has_installed package_id)
              r
              (all (has_installed package_id) (responses_of r)))
      → let (result, last) = finish_install sdk decode package_id (sent, next) in
        ((a : Answer E Label) × (result ≡ ok a)
          × IsSettled (has_installed package_id) a.result a.flag
          × (last.assert_proposal_result ≡ some (endorse_all none)))
        ⊎ ((x : Thrown E) × (result ≡ err x)
            × (last.assert_proposal_result ≡ some (skip_if_installed package_id)))
  finished decode package_id (err x) next h k = inr (x, refl, h)
  finished decode package_id (ok r) next h k =
      elim (Result-cases (decode_all {E = E} decode (responses_of r))) [
        | inr (x, e) ↦ inr (x, rw e refl, rw e h)
        | inl (labels, e) ↦ inl (
          record {
            result = r;
            flag = all (has_installed package_id) (responses_of r);
            query_results = labels;
          },
          rw e refl,
          k r refl,
          rw e refl,
        )
      ]

  -- An installation that returns has read the package and got an answer with status 200 or "already
  -- installed" from each peer; if it does not report the package as installed before, some peer
  -- installed it now; and the next call starts with the default handler. One that cannot read the
  -- package throws and changes nothing; one that throws behind the reading leaves the handler of the
  -- installation behind.
  pub install_chaincode-IsSettled :
      {Label : Type 0} (encode : Bytes → Bytes) (decode : Bytes → Option Label)
      (file : Option Bytes) (package_id : Option Text) (timeout : Option ℕ) (m : Manager E Payload)
      → let (result, next) = install_chaincode sdk encode decode file package_id timeout m in
        ((file ≡ none) × (result ≡ err read_error) × (next ≡ m))
        ⊎ ((content : Bytes) × (file ≡ some content)
            × (((a : Answer E Label) × (result ≡ ok a)
                  × IsSettled (has_installed package_id) a.result a.flag
                  × (next.assert_proposal_result ≡ some (endorse_all none)))
                ⊎ ((x : Thrown E) × (result ≡ err x)
                    × (next.assert_proposal_result ≡ some (skip_if_installed package_id)))))
  unfolding install_chaincode
  install_chaincode-IsSettled encode decode none package_id timeout m = inl (refl, refl, refl)
  install_chaincode-IsSettled encode decode (some content) package_id timeout m =
      let q = request (codes "InstallChaincode") (encode content ∷ []) in
      let started = set_result_handler sdk (some (skip_if_installed package_id)) m in
      let (sent, next) = send sdk q timeout started in
      inr (
        content,
        refl,
        finished decode package_id sent next (send-keeps_handler sdk q timeout started)
            (λ r h. sent-IsSettled (has_installed package_id) q timeout started refl h),
      )

  -- An approval that returns got an answer with status 200 or "unchanged content" from each peer, and
  -- if it does not report that nothing changed, some peer took it. Whether it returns or throws, its
  -- handler stays set for the calls that follow.
  pub approve_for_my_org-IsSettled :
      {Collections : Type 0} (encode : Definition Collections → Bytes) (name version : Text)
      (sequence : ℕ) (package_id : Option Text) (properties : Properties Collections)
      (m : Manager E Payload)
      → let (result, next) =
          approve_for_my_org sdk encode name version sequence package_id properties m in
        (((a : Answer E Unit) × (result ≡ ok a)
            × IsSettled (has_no_change name sequence) a.result a.flag)
          ⊎ ((x : Thrown E) × (result ≡ err x)))
        × (next.assert_proposal_result ≡ some (skip_if_no_change name sequence))
  unfolding approve_for_my_org
  approve_for_my_org-IsSettled {Collections = Collections} encode name version sequence package_id
        properties m =
      let args : Definition Collections = record {
        name = name;
        version = version;
        sequence = sequence;
        source = some (source_of package_id);
        properties = property_assign properties;
      } in
      let q = request (codes "ApproveChaincodeDefinitionForMyOrg") (encode args ∷ []) in
      let started = set_result_handler sdk (some (skip_if_no_change name sequence)) m in
      (
        elim (Result-cases (send sdk q none started).0) [
          | inr (x, h) ↦ inr (x, rw h refl)
          | inl (r, h) ↦ inl (
            record {
              result = r;
              flag = all (has_no_change name sequence) (responses_of r);
              query_results = [];
            },
            rw h refl,
            sent-IsSettled (has_no_change name sequence) q none started refl h,
          )
        ],
        send-keeps_handler sdk q none started,
      )

  -- A query of definitions that returns got an answer with status 200 from each peer; a query for one
  -- name also takes "not defined", and if it does not report the name as not found, some peer has it.
  pub query_chaincode_definition-IsSettled :
      {A : Type 0} (encode : Text → Bytes) (decode_one decode_many : Bytes → Option A)
      (name : Option Text) (m : Manager E Payload) (a : Answer E A)
      → (query_chaincode_definition sdk encode decode_one decode_many name m).0 ≡ ok a
      → ((is_given name ≡ true) × IsSettled (has_no_definition name) a.result a.flag)
        ⊎ ((is_given name ≡ false)
            × (is_empty a.result.errors ≡ true)
            × (all succeeded a.result.responses ≡ true))
  unfolding query_chaincode_definition
  query_chaincode_definition-IsSettled encode decode_one decode_many name m a h =
      let started = set_result_handler sdk (some (skip_if_no_definition name)) m in
      let q =
        if is_given name
        then request (codes "QueryChaincodeDefinition") (encode (shown name) ∷ [])
        else request (codes "QueryChaincodeDefinitions") ([] ∷ []) in
      let (sent, next) = send sdk q none started in
      elim (Result-cases (send sdk q none started).0) [
        | inr (x, k) ↦ absurd (cc (rw k at h))
        | inl (r, k) ↦
            elim (Result-cases (
              decode_all {E = E} (if is_given name then decode_one else decode_many)
                (responses_of r))) [
                  | inr (x, d) ↦ absurd (cc (rw d at rw k at h))
                  | inl (found, d) ↦
                      let e = ok_inj (rw d at rw k at h) in
                      elim (Bool-cases (is_given name)) [
                        | inl t ↦ inl (
                          t,
                          subst (λ b. IsSettled (has_no_definition name) b.result b.flag) e
                              (sent-IsSettled (has_no_definition name) q none started (rw t refl)
                                k),
                        )
                        | inr t ↦
                            let (out, f) =
                              send-assert_result sdk q none started (endorse_all none) (rw t refl)
                                k in
                            let (_, c, g) = endorse_all-ok none r out f in
                            inr (
                              t,
                              subst (λ b. is_empty b.result.errors ≡ true) e c,
                              subst (λ b. all succeeded b.result.responses ≡ true) e
                                  (all_mono _ _ (λ i n. ground (arith, n)) r.responses g),
                            )
                      ]
                ]
      ]
