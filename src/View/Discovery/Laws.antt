-- ===== src/View/Discovery/Laws.antt =====
-- What a discovery comes to.
use fabric_common.Base.{
  ◌≡◌, refl, sym, ap, ◌∙◌, Bool, true, false, Option, none, some, ◌==◌, text_eq, text_eq_iff, arith,
}
use fabric_common.Base.Result.{ok, bind_inv, ok_inj}
use fabric_common.Endorsement.Ledger.Hex.{to_hex}
use fabric_common.View.Discovery.{
  Identity, Envelope, Alive, FoundPeer, PeerView, Decoders, decoded, ensure, without_secret,
  calculate_pki_id, checked_alive, state_view, peer_view, parse_peer_result,
}

decoded_inv : {A : Type 0} (o : Option A) {a : A} → decoded o ≡ ok a → o ≡ some a
decoded_inv none h = absurd (cc)
decoded_inv (some b) h = cc

ensure_inv : {A : Type 0} (b : Bool) (x : A) {a : A} → ensure b x ≡ ok a → (b ≡ true) × (x ≡ a)
ensure_inv true x h = (refl, ok_inj h)
ensure_inv false x h = absurd (cc)

module _ {Long : Type 0} (d : Decoders Long) where
  checked_alive_inv :
      (i : Identity) (e : Envelope) {a : Alive Long}
      → checked_alive d i e ≡ ok a
      → to_hex a.pki_id ≡ calculate_pki_id d i
  unfolding checked_alive
  checked_alive_inv i e {a} h =
      let (payload, p, h1) = bind_inv (without_secret e) _ h in
      let (b, q, h2) = bind_inv (decoded (d.alive payload)) _ h1 in
      let (c, r, h3) = bind_inv (ensure (b.tag == 1) b) _ h2 in
      let (t, same) = ensure_inv (text_eq (to_hex c.pki_id) (calculate_pki_id d i)) c h3 in
      ap (λ x. to_hex x.pki_id) (sym same)
      ∙ ground (arith, text_eq_iff (to_hex c.pki_id) (calculate_pki_id d i))

  -- A peer that is returned was decoded, and its PKI id is the digest of its identity: the identity
  -- that stands in the view.
  pub parse_peer_result-pki_id :
      (p : FoundPeer) {v : PeerView}
      → parse_peer_result d p ≡ ok v
      → (i : Identity) × (d.identity p.identity ≡ some i)
        × (v.mspid ≡ i.mspid)
        × (v.certificate ≡ d.to_text i.id_bytes)
        × (v.pki_id ≡ calculate_pki_id d i)
  unfolding parse_peer_result
  parse_peer_result-pki_id p {v} h =
      let (i, a, h1) = bind_inv (decoded (d.identity p.identity)) _ h in
      let (alive, b, h2) = bind_inv (checked_alive d i p.membership_info) _ h1 in
      let (s, c, h3) = bind_inv (state_view d p.state_info) _ h2 in
      let same : peer_view d i alive s ≡ v = ok_inj h3 in
      (
        i,
        decoded_inv (d.identity p.identity) a,
        ap (λ x. x.mspid) (sym same),
        ap (λ x. x.certificate) (sym same),
        ap (λ x. x.pki_id) (sym same) ∙ checked_alive_inv i p.membership_info b,
      )
