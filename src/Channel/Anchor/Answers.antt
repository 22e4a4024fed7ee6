-- ===== src/Channel/Anchor/Answers.antt =====
-- What the tests of `setAnchorPeers` of nodejs/channelConfig.js accept: the anchor peers that are read
-- back, and the answer of the binary.
use Prim.Native.String.{String}
use text.Mathlib.TextEquality.{eq_iff}
use fabric_common.Base.{
  ℕ, ◌≡◌, refl, ap, inl, inr, true, Option, none, some, some_inj, List, [], ◌∷◌, arith, text_eq,
  Bool-cases, Option-cases,
}
use fabric_common.Base.Result.{Result, ok, err, ok_inj}
use fabric_common.Endorsement.Check.{Bytes}
use fabric_common.Config.Json.{
  Json, null, bool, number, string, array, object, Items, nil, cons, lookup,
}
use fabric_common.Config.Orgs.{AnchorPeer}
use fabric_common.Channel.Anchor.{
  ToolError, trim, no_differences, differences, count, is_string, is_number, same_peer, same_items,
  same_peers,
}

-- The value is an object of two fields, the peer's host and its port.
abbrev pub IsThis : Json → AnchorPeer → Type 0
IsThis (object fs) p =
    (count fs ≡ 2)
    × (lookup "host" fs ≡ some (string p.host))
    × (lookup "port" fs ≡ some (number p.port))
IsThis _ p = ⊥

-- The values are the peers, in order.
abbrev pub AreThese : Items → List AnchorPeer → Type 0
AreThese nil [] = Unit
AreThese (cons j js) (p ∷ ps) = IsThis j p × AreThese js ps
AreThese _ _ = ⊥

is_string_inv : (s : String) (o : Option Json) → is_string s o ≡ true → o ≡ some (string s)
is_string_inv s (some (string t)) h = ap (λ u. some (string u)) (ground (arith, eq_iff t s))
is_string_inv s none h = absurd (cc)
is_string_inv s (some null) h = absurd (cc)
is_string_inv s (some (bool _)) h = absurd (cc)
is_string_inv s (some (number _)) h = absurd (cc)
is_string_inv s (some (array _)) h = absurd (cc)
is_string_inv s (some (object _)) h = absurd (cc)

is_number_inv : (n : ℕ) (o : Option Json) → is_number n o ≡ true → o ≡ some (number n)
is_number_inv n (some (number k)) h = ap (λ u. some (number u)) (ground arith)
is_number_inv n none h = absurd (cc)
is_number_inv n (some null) h = absurd (cc)
is_number_inv n (some (bool _)) h = absurd (cc)
is_number_inv n (some (string _)) h = absurd (cc)
is_number_inv n (some (array _)) h = absurd (cc)
is_number_inv n (some (object _)) h = absurd (cc)

same_peer-IsThis : (j : Json) (p : AnchorPeer) → same_peer j p ≡ true → IsThis j p
unfolding same_peer
same_peer-IsThis (object fs) p h =
    let host = is_string_inv p.host (lookup "host" fs) in
    let port = is_number_inv p.port (lookup "port" fs) in
    (ground arith, host (ground arith), port (ground arith))
same_peer-IsThis null p h = absurd (cc)
same_peer-IsThis (bool _) p h = absurd (cc)
same_peer-IsThis (number _) p h = absurd (cc)
same_peer-IsThis (string _) p h = absurd (cc)
same_peer-IsThis (array _) p h = absurd (cc)

same_items-AreThese : (js : Items) (ps : List AnchorPeer) → same_items js ps ≡ true → AreThese js ps
unfolding same_items
same_items-AreThese nil [] h = tt
same_items-AreThese nil (p ∷ ps) h = absurd (cc)
same_items-AreThese (cons j js) [] h = absurd (cc)
same_items-AreThese (cons j js) (p ∷ ps) h =
    (same_peer-IsThis j p (ground arith), same_items-AreThese js ps (ground arith))

pub same_peers-AreThese :
    (found : Option Json) (ps : List AnchorPeer)
    → same_peers found ps ≡ true
    → (items : Items) × (found ≡ some (array items)) × AreThese items ps
same_peers-AreThese (some (array js)) ps h = (js, refl, same_items-AreThese js ps h)
same_peers-AreThese none ps h = absurd (cc)
same_peers-AreThese (some null) ps h = absurd (cc)
same_peers-AreThese (some (bool _)) ps h = absurd (cc)
same_peers-AreThese (some (number _)) ps h = absurd (cc)
same_peers-AreThese (some (string _)) ps h = absurd (cc)
same_peers-AreThese (some (object _)) ps h = absurd (cc)

pub differences_inv :
    (r : Result ToolError Bytes) (config : Bytes) → differences r ≡ ok (some config) → r ≡ ok config
unfolding differences
differences_inv (ok c) config h = ap ok (some_inj (ok_inj h))
differences_inv (err e) config h = elim (Option-cases e.stderr) [
  | inl f ↦ absurd (cc (rw f at h))
  | inr (s, f) ↦ elim (Bool-cases (text_eq (trim s) no_differences)) [
    | inl t ↦ absurd (cc (rw t at rw f at h))
    | inr t ↦ absurd (cc (rw t at rw f at h))
  ]
]
