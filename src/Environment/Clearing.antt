-- ===== src/Environment/Clearing.antt =====
-- The lists and the clearing of chaincodes in nodejs/fabric-dockerode.js. The engine is a parameter:
-- its state, its lists and its deletions, which may throw.
pub mod Laws
use fabric_common.Base.{
  Bool, true, false, Option, none, some, List, [], ◌∷◌, ◌++◌, ◌==◌, any, keep, Text, codes,
  starts_with, if◌then◌else◌,
}
use fabric_common.Base.Result.{Result, ok, err}
use fabric_common.Base.Io.{Io, ◌>>=◌, pure}

pub record Container : Type 0 where
  pub id : Text
  pub image : Text
  pub names : List Text

pub record Image : Type 0 where
  pub id : Text
  pub repo_tags : Option (List Text)

abbrev pub is_chaincode_container : Container → Bool
is_chaincode_container c = any (λ name. starts_with name (codes "/dev-")) c.names

abbrev pub is_chaincode_image : Image → Bool
is_chaincode_image i = elim i.repo_tags [
  | none ↦ false
  | some tags ↦ any (λ name. starts_with name (codes "dev-")) tags
]

pub record Engine (X : Type 0) : Type 1 where
  pub State : Type 0
  pub image_list : State → List Image
  pub container_list : State → List Container
  pub image_delete : Text → State → Result X (Unit {0}) × State
  pub container_delete : Text → State → Result X (Unit {0}) × State
  pub container_exec : Text → List Text → State → Result X (Unit {0}) × State
  pub container_restart : Text → State → Result X (Unit {0}) × State

-- `filter`, where it is a function.
abbrev pub filtered : {A : Type 0} → Option (A → Bool) → List A → List A
filtered none as' = as'
filtered (some f) as' = keep f as'

-- `s.replace(':', '.')`: the first colon.
abbrev pub replace_colon : Text → Text
replace_colon [] = []
replace_colon (c ∷ s) = if c == b':' then b'.' ∷ s else c ∷ replace_colon s

module _ {X : Type 0} (engine : Engine X) where
  -- `chaincodeImageList` and `chaincodeContainerList`
  abbrev pub chaincode_image_list : engine.State → List Image
  chaincode_image_list s = keep is_chaincode_image (engine.image_list s)

  abbrev pub chaincode_container_list : engine.State → List Container
  chaincode_container_list s = keep is_chaincode_container (engine.container_list s)

  unfoldable pub delete_images : List Image → Io engine.State X (Unit {0})
  delete_images [] = pure tt
  delete_images (i ∷ is) = engine.image_delete i.id >>= λ _. delete_images is

  -- `chaincodeImageClear`
  unfoldable pub chaincode_image_clear : Option (Image → Bool) → Io engine.State X (Unit {0})
  unfolding delete_images
  chaincode_image_clear filter s = delete_images (filtered filter (chaincode_image_list s)) s

  unfoldable pub delete_containers : List Container → Io engine.State X (Unit {0})
  delete_containers [] = pure tt
  delete_containers (c ∷ cs) = engine.container_delete c.id >>= λ _.
      engine.image_delete c.image >>= λ _. delete_containers cs

  -- `chaincodeClear`
  unfoldable pub chaincode_clear : Option (Container → Bool) → Io engine.State X (Unit {0})
  unfolding delete_containers
  chaincode_clear filter s = delete_containers (filtered filter (chaincode_container_list s)) s

  -- `uninstallChaincode`
  unfoldable pub uninstall_chaincode : Text → Text → Io engine.State X (Unit {0})
  uninstall_chaincode container_name package_id =
      engine.container_exec container_name (
        codes "rm"
        ∷ (codes "/var/hyperledger/production/lifecycle/chaincodes/"
            ++ replace_colon package_id
            ++ codes ".tar.gz")
        ∷ [])
      >>= λ _. engine.container_restart container_name
