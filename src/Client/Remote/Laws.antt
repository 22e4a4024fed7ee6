-- ===== src/Client/Remote/Laws.antt =====
-- What an endpoint's options hold at each key.
use Prim.Native.String.{String}
use text.Mathlib.Text.{◌==◌ as str_eq}
use text.Mathlib.TextEquality.{eq_iff}
use fabric_common.Base.{
  ◌≡◌, refl, sym, ap, ◌∙◌, inl, inr, Bool, true, false, not, [], ◌∷◌, if◌then◌else◌, ◌&&◌, ◌||◌,
  arith, Bool-cases,
}
use fabric_common.Base.Result.{ok}
use fabric_common.Client.Remote.{
  Value, undefined, string, integer, bool, other, Opts, get, assign, remove, truthy, drop_falsy,
  merge, default_grpc_options, timeout_of, override_ssl, set_timeouts, normalised,
  has_to_lower_case, remote_opts_transform,
}

-- An object has one entry for each of its keys.
unfoldable pub has_key : String → Opts → Bool
has_key key [] = false
has_key key ((k, v) ∷ o) = str_eq k key || has_key key o

unfoldable pub distinct : Opts → Bool
unfolding has_key
distinct [] = true
distinct ((k, v) ∷ o) = not (has_key k o) && distinct o

get-assign :
    (j k : String) (v : Value) (o : Opts)
    → get k (assign j v o) ≡ (if str_eq j k then v else get k o)
unfolding get assign
get-assign j k v [] = refl
get-assign j k v ((i, w) ∷ o) =
    ground (arith, eq_iff i j, eq_iff i k, eq_iff j k, get-assign j k v o)

get-remove :
    (j k : String) (o : Opts) → get k (remove j o) ≡ (if str_eq j k then undefined else get k o)
unfolding get remove
get-remove j k [] = ground arith
get-remove j k ((i, w) ∷ o) = ground (arith, eq_iff i j, eq_iff i k, eq_iff j k, get-remove j k o)

get-has_key : (k : String) (o : Opts) → has_key k o ≡ false → get k o ≡ undefined
unfolding get has_key
get-has_key k [] h = refl
get-has_key k ((i, w) ∷ o) h = ground (arith, get-has_key k o)

has_key-assign :
    (j k : String) (v : Value) (o : Opts) → has_key k (assign j v o) ≡ str_eq j k || has_key k o
unfolding has_key assign
has_key-assign j k v [] = ground arith
has_key-assign j k v ((i, w) ∷ o) =
    ground (arith, eq_iff i j, eq_iff i k, eq_iff j k, has_key-assign j k v o)

has_key-remove :
    (j k : String) (o : Opts) → has_key k (remove j o) ≡ not (str_eq j k) && has_key k o
unfolding has_key remove
has_key-remove j k [] = ground arith
has_key-remove j k ((i, w) ∷ o) =
    ground (arith, eq_iff i j, eq_iff i k, eq_iff j k, has_key-remove j k o)

distinct-assign :
    (j : String) (v : Value) (o : Opts) → distinct o ≡ true → distinct (assign j v o) ≡ true
unfolding distinct assign has_key
distinct-assign j v [] h = refl
distinct-assign j v ((i, w) ∷ o) h =
    ground (arith, eq_iff i j, eq_iff j i, has_key-assign j i v o, distinct-assign j v o)

distinct-remove : (j : String) (o : Opts) → distinct o ≡ true → distinct (remove j o) ≡ true
unfolding distinct remove
distinct-remove j [] h = refl
distinct-remove j ((i, w) ∷ o) h =
    ground (arith, eq_iff i j, eq_iff j i, has_key-remove j i o, distinct-remove j o)

-- A caller's entry that is a condition wins over the entry of the base, and no other does.
get-merge :
    (k : String) (base o : Opts)
    → distinct o ≡ true
    → get k (merge base (drop_falsy o)) ≡ (if truthy (get k o) then get k o else get k base)
unfolding get merge drop_falsy distinct
get-merge k base [] h = refl
get-merge k base ((i, w) ∷ o) h = ground (
  arith,
  eq_iff i k,
  get-assign i k w base,
  get-has_key k o,
  get-merge k base o,
  get-merge k (assign i w base) o,
)

truthy-timeout_of : (v : Value) → truthy (integer (timeout_of v)) ≡ true
truthy-timeout_of undefined = refl
truthy-timeout_of (string s) = refl
truthy-timeout_of (integer n) = ground (arith)
truthy-timeout_of (bool b) = refl
truthy-timeout_of other = refl

distinct-set_timeouts :
    (a b : Value) (o : Opts) → distinct o ≡ true → distinct (set_timeouts a b o) ≡ true
unfolding set_timeouts
distinct-set_timeouts a b o h =
    distinct-assign _ _ _ (distinct-remove _ _ (distinct-assign _ _ o h))

distinct-override_ssl :
    (v : Value) (o : Opts) → distinct o ≡ true → distinct (override_ssl v o) ≡ true
unfolding override_ssl
distinct-override_ssl v o h = elim (Bool-cases (truthy v)) [
  | inl t ↦ rw t (distinct-remove _ _ (distinct-assign _ _ _ (distinct-assign _ _ o h)))
  | inr f ↦ rw f h
]

get-set_timeouts :
    (a b : Value) (o : Opts) (k : String)
    → get k (set_timeouts a b o) ≡ (
        if str_eq "requestTimeout" k
        then integer (timeout_of b)
        else if str_eq "waitForReadyTimeout" k
        then undefined
        else if str_eq "grpc-wait-for-ready-timeout" k
        then integer (timeout_of a)
        else get k o)
unfolding set_timeouts
get-set_timeouts a b o k = rw (get-assign, get-remove, get-assign) refl

get-override_ssl :
    (v : Value) (o : Opts) (k : String)
    → get k (override_ssl v o) ≡ (
        if truthy v
        then if str_eq "sslTargetNameOverride" k
          then undefined
          else if str_eq "grpc.default_authority" k
          then v
          else if str_eq "grpc.ssl_target_name_override" k
          then v
          else get k o
        else get k o)
unfolding override_ssl
get-override_ssl v o k = elim (Bool-cases (truthy v)) [
  | inl t ↦ rw (t, get-remove, get-assign, get-assign) refl
  | inr f ↦ rw f refl
]

-- The entry that the endpoint gets for a key, from the entries of the caller.
unfoldable pub described : Opts → String → Value
unfolding get
described o k =
    let ssl = get "sslTargetNameOverride" o in
    if str_eq "requestTimeout" k
    then integer (timeout_of (get "requestTimeout" o))
    else if str_eq "waitForReadyTimeout" k || str_eq "sslTargetNameOverride" k
    then undefined
    else if str_eq "grpc-wait-for-ready-timeout" k
    then integer (timeout_of (get "waitForReadyTimeout" o))
    else if truthy ssl
        && (str_eq "grpc.default_authority" k || str_eq "grpc.ssl_target_name_override" k)
    then ssl
    else if truthy (get k o)
    then get k o
    else get k default_grpc_options

same_key : (j k : String) → str_eq j k ≡ true → j ≡ k
same_key j k e = ground (arith, eq_iff j k)

no_default :
    (j k : String)
    → get j default_grpc_options ≡ undefined
    → str_eq j k ≡ true
    → get k default_grpc_options ≡ undefined
no_default j k h e = ap (λ i. get i default_grpc_options) (sym (same_key j k e)) ∙ h

-- The tests on a key, on the keys' answers.
assemble :
    (e w g s d n : Bool) (ready request ssl v default : Value)
    → truthy ready ≡ true
    → truthy request ≡ true
    → (w ≡ true → default ≡ undefined)
    → (s ≡ true → (default ≡ undefined) × (v ≡ ssl) × (g ≡ false))
    → let x =
        if e
        then request
        else if w
        then undefined
        else if g
        then ready
        else if truthy ssl
        then if s then undefined else if d then ssl else if n then ssl else v
        else v in
      (if truthy x then x else default) ≡ (
        if e
        then request
        else if w || s
        then undefined
        else if g
        then ready
        else if truthy ssl && (d || n)
        then ssl
        else if truthy v
        then v
        else default)
assemble true w g s d n ready request ssl v default hr hq hw hs = rw hq refl
assemble false true g s d n ready request ssl v default hr hq hw hs = hw refl
assemble false false g true d n ready request ssl v default hr hq hw hs =
    let (u, same, apart) = hs refl in
    rw (apart, u)
      (elim (Bool-cases (truthy ssl)) [ inl t ↦ rw t refl | inr f ↦ rw (f, same, f) refl ])
assemble false false true false d n ready request ssl v default hr hq hw hs = rw hr refl
assemble false false false false true n ready request ssl v default hr hq hw hs =
    elim (Bool-cases (truthy ssl)) [ inl t ↦ rw t (rw t refl) | inr f ↦ rw f refl ]
assemble false false false false false true ready request ssl v default hr hq hw hs =
    elim (Bool-cases (truthy ssl)) [ inl t ↦ rw t (rw t refl) | inr f ↦ rw f refl ]
assemble false false false false false false ready request ssl v default hr hq hw hs =
    elim (Bool-cases (truthy ssl)) [ inl t ↦ rw t refl | inr f ↦ rw f refl ]

pub get-normalised :
    (o : Opts) (k : String)
    → distinct o ≡ true
    → get k (merge default_grpc_options (normalised o)) ≡ described o k
unfolding normalised described
get-normalised o k h =
    let ssl = get "sslTargetNameOverride" o in
    let a = get "waitForReadyTimeout" o in
    let b = get "requestTimeout" o in
    rw
      (
        get-merge k default_grpc_options (set_timeouts a b (override_ssl ssl o))
            (distinct-set_timeouts a b (override_ssl ssl o) (distinct-override_ssl ssl o h)),
        get-set_timeouts a b (override_ssl ssl o) k,
        get-override_ssl ssl o k,
      )
      (assemble (str_eq "requestTimeout" k) (str_eq "waitForReadyTimeout" k)
        (str_eq "grpc-wait-for-ready-timeout" k) (str_eq "sslTargetNameOverride" k)
        (str_eq "grpc.default_authority" k) (str_eq "grpc.ssl_target_name_override" k)
        (integer (timeout_of a)) (integer (timeout_of b)) ssl (get k o) (get k default_grpc_options)
        (truthy-timeout_of a) (truthy-timeout_of b) (no_default "waitForReadyTimeout" k refl)
        (λ e. (
          no_default "sslTargetNameOverride" k refl e,
          ap (λ i. get i o) (sym (same_key "sslTargetNameOverride" k e)),
          ap (str_eq "grpc-wait-for-ready-timeout") (sym (same_key "sslTargetNameOverride" k e)),
        )))

-- Where the caller's object has one entry for each key and its host is a text or no condition, there
-- are options, and at each key they hold the timeout, the name that overrides the host's, the caller's
-- entry where it is a condition, or else the default; both timeouts are integers other than 0, and the
-- two keys that only the code reads are gone.
pub get-remote_opts_transform :
    (o : Opts) (k : String)
    → distinct o ≡ true
    → has_to_lower_case (get "host" o) ≡ true
    → (r : Opts) × (remote_opts_transform o ≡ ok r) × (get k r ≡ described o k)
unfolding remote_opts_transform
get-remote_opts_transform o k h t =
    (merge default_grpc_options (normalised o), rw t refl, get-normalised o k h)
