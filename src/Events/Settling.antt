-- ===== src/Events/Settling.antt =====
-- Promises: the first call of `resolve` or `reject` settles one, and later calls do nothing.
use fabric_common.Base.{◌≡◌, refl, Bool, true, false}
use fabric_common.Base.Result.{Result, ok, err}

pub data Promise (A X : Type 0) : Type 0 where
  pending : Promise A X
  resolved : A → Promise A X
  rejected : X → Promise A X

module _ {A X : Type 0} where
  abbrev pub is_settled : Promise A X → Bool
  is_settled pending = false
  is_settled _ = true

  abbrev pub resolve : A → Promise A X → Promise A X
  resolve a pending = resolved a
  resolve a p = p

  abbrev pub reject : X → Promise A X → Promise A X
  reject x pending = rejected x
  reject x p = p

module _ {A X : Type 0} where
  pub resolved_inj : {a b : A} → ◌≡◌ {A = Promise A X} (resolved a) (resolved b) → a ≡ b
  resolved_inj h = cc

-- `await` of a promise, where the next call may reject with another value.
module _ {A B X : Type 0} where
  abbrev pub then_do : Promise A X → (A → Promise B X) → Promise B X
  then_do pending k = pending
  then_do (rejected x) k = rejected x
  then_do (resolved a) k = k a

  pub then_do_inv :
      (m : Promise A X) (k : A → Promise B X) {b : B}
      → then_do m k ≡ resolved b
      → (a : A) × (m ≡ resolved a) × (k a ≡ resolved b)
  then_do_inv pending k h = absurd (cc)
  then_do_inv (rejected x) k h = absurd (cc)
  then_do_inv (resolved a) k h = (a, refl, h)

module _ {A X Y : Type 0} where
  abbrev pub rejecting : (X → Y) → Promise A X → Promise A Y
  rejecting f pending = pending
  rejecting f (rejected x) = rejected (f x)
  rejecting f (resolved a) = resolved a

  pub rejecting_inv :
      (f : X → Y) (m : Promise A X) {a : A} → rejecting f m ≡ resolved a → m ≡ resolved a
  rejecting_inv f pending h = absurd (cc)
  rejecting_inv f (rejected x) h = absurd (cc)
  rejecting_inv f (resolved b) h = cc

  -- A call that may throw, inside an async function.
  abbrev pub settle : (X → Y) → Result X A → Promise A Y
  settle f (ok a) = resolved a
  settle f (err x) = rejected (f x)

  pub settle_inv : (f : X → Y) (r : Result X A) {a : A} → settle f r ≡ resolved a → r ≡ ok a
  settle_inv f (ok b) h = cc
  settle_inv f (err x) h = absurd (cc)
