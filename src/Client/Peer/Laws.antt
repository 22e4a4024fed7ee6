-- ===== src/Client/Peer/Laws.antt =====
-- What connecting makes of a peer's endpoints, before and after a ping.
use fabric_common.Base.{◌≡◌, refl, inl, inr, true, [], ◌∷◌, or_right, Text}
use fabric_common.Base.Result.{Result, ok, Result-cases}
use fabric_common.Events.Deliver.{Endpoint, connect_endpoint}
use fabric_common.Client.Peer.{
  Peer, eventing, discovering, connect_each, connect_peer, ping, ping_endpoint,
}

connect_endpoint-serviced :
    {X : Type 0} (open_connection : Endpoint → Result X Endpoint) (e : Endpoint)
    → e.has_service ≡ true
    → connect_endpoint open_connection e ≡ ok e
unfolding connect_endpoint
connect_endpoint-serviced open_connection e h = rw (or_right e.connected e.has_service h) refl

-- The endpoints behind the endorser leave the endorser as it is.
eventer-endorser :
    {X : Type 0} (open_connection : Endpoint → Result X Endpoint) (p : Peer)
    → (connect_each open_connection (eventing ∷ discovering ∷ []) p).1.endorser ≡ p.endorser
unfolding connect_each
eventer-endorser open_connection p =
    elim (Result-cases (connect_endpoint open_connection p.eventer)) [
      | inr (x, h) ↦ rw h refl
      | inl (e, h) ↦ rw h (elim (Result-cases (connect_endpoint open_connection p.discoverer)) [
        | inr (x, k) ↦ rw k refl
        | inl (d, k) ↦ rw k refl
      ])
    ]

-- Where waiting for an endpoint that has a service keeps it, whatever a ping comes to: the endorser has
-- a service, and to connect the peer after it does not open the connection of the endorser, whose
-- endpoint stays as the waiting left it, connected or not.
pub connect_peer-ping :
    {X : Type 0} (open_connection : Endpoint → Result X Endpoint)
    (wait_for_ready : Endpoint → Result Text (Unit {0}) × Endpoint) (p : Peer)
    → ((e : Endpoint) → e.has_service ≡ true → (wait_for_ready e).1.has_service ≡ true)
    → ((ping wait_for_ready p).1.endorser.has_service ≡ true)
      × ((connect_peer open_connection (ping wait_for_ready p).1).1.endorser
          ≡ (wait_for_ready (record p.endorser { has_service = true })).1)
unfolding connect_peer connect_each ping ping_endpoint
connect_peer-ping open_connection wait_for_ready p keeps =
    let q : Peer = (ping wait_for_ready p).1 in
    let has = keeps (record p.endorser { has_service = true }) refl in
    (
      has,
      rw (connect_endpoint-serviced open_connection q.endorser has)
          (eventer-endorser open_connection q),
    )
