-- ===== src/Environment/Setting.antt =====
-- The entries of an environment, a string `name=value` as the pair of its parts; `none` is an entry
-- without `=`. The tables of names are those of nodejs/formatter/remote.js and
-- nodejs/formatter/constants.js.
use Prim.Native.String
use Prim.Native.String.{String}
use text.Mathlib.Text.{◌==◌ as str_eq}
use fabric_common.Base.{
  ℕ, suc, ◌+◌, ◌≡◌, refl, Bool, true, false, Option, none, some, List, [], ◌∷◌, ◌++◌, if◌then◌else◌,
  arith, Bool-cases, inl, inr,
}

pub record Setting : Type 0 where
  pub name : String
  pub value : Option String

abbrev pub ◌:=◌ : String → String → Setting
name := value = record { name = name; value = some value }

infix 3 ◌:=◌
-- How often an environment sets a name.
abbrev pub count : String → List Setting → ℕ
count name [] = 0
count name (s ∷ env) = let rest = count name env in if str_eq s.name name then suc rest else rest

pub count-append :
    (name : String) (xs ys : List Setting) → count name (xs ++ ys) ≡ count name xs + count name ys
count-append name [] ys = omega arith
count-append name (s ∷ xs) ys = elim (Bool-cases (str_eq s.name name)) [
  | inl t ↦ rw t (omega (arith, count-append name xs ys))
  | inr t ↦ rw t (count-append name xs ys)
]

-- A string as a condition.
abbrev pub is_given : Option String → Bool
is_given none = false
is_given (some String.[]) = false
is_given (some (String.◌∷◌ c s)) = true

abbrev pub or_string : Option String → String → String
or_string none d = d
or_string (some s) d = if is_given (some s) then s else d

abbrev pub is_some {ℓ} : {A : Type ℓ} → Option A → Bool
is_some none = false
is_some (some a) = true

-- `${b}` of a Boolean.
abbrev pub shown : Bool → String
shown true = "true"
shown false = "false"

-- A table by its keys; a missing key gives `undefined`.
abbrev pub look_up : List (String × String) → String → String
look_up [] key = "undefined"
look_up ((k, v) ∷ table) key = let rest = look_up table key in if str_eq k key then v else rest

-- `LoggingLevel`
abbrev pub logging_levels : List (String × String)
logging_levels =
    ("fatal", "FATAL")
    ∷ ("FATAL", "FATAL")
    ∷ ("panic", "PANIC")
    ∷ ("PANIC", "PANIC")
    ∷ ("error", "ERROR")
    ∷ ("ERROR", "ERROR")
    ∷ ("warning", "WARNING")
    ∷ ("WARNING", "WARNING")
    ∷ ("info", "INFO")
    ∷ ("INFO", "INFO")
    ∷ ("debug", "DEBUG")
    ∷ ("DEBUG", "DEBUG")
    ∷ ("undefined", "INFO")
    ∷ ("null", "INFO")
    ∷ []

pub logging_level : String → String
logging_level key = look_up logging_levels key

-- `MetricsProvider`
pub metrics_provider : Option String → String
metrics_provider provider =
    look_up
      (("statsd", "statsd")
        ∷ ("prometheus", "prometheus")
        ∷ ("undefined", "disabled")
        ∷ ("null", "disabled")
        ∷ [])
      (elim provider [ none ↦ "undefined" | some p ↦ p ])

pub record Tls : Type 0 where
  pub key : String
  pub cert : String
  pub ca_cert : String
  pub root_cas : List String

pub join_comma : List String → String
join_comma [] = ""
join_comma (s ∷ ss) = String.◌++◌ "," (String.◌++◌ s (join_comma ss))

-- `rootCAsStringBuilder`
pub root_cas_string : Tls → String
unfolding join_comma
root_cas_string tls = String.◌++◌ tls.ca_cert (join_comma tls.root_cas)

pub record Operations : Type 0 where
  pub tls : Option Tls

pub record Metrics : Type 0 where
  pub provider : Option String
  pub statsd_host : Option String

-- `operationsOpts.tls || tls`
abbrev pub operations_tls : Operations → Option Tls → Option Tls
operations_tls o tls = elim o.tls [ none ↦ tls | some t ↦ some t ]

-- `concat` of the sections of an environment, and how often they set a name.
abbrev pub concat_all : List (List Setting) → List Setting
concat_all [] = []
concat_all (env ∷ envs) = env ++ concat_all envs

abbrev pub count_all : String → List (List Setting) → ℕ
count_all name [] = 0
count_all name (env ∷ envs) = count name env + count_all name envs

pub count-concat_all :
    (name : String) (envs : List (List Setting))
    → count name (concat_all envs) ≡ count_all name envs
count-concat_all name [] = refl
count-concat_all name (env ∷ envs) =
    omega (arith, count-append name env (concat_all envs), count-concat_all name envs)
