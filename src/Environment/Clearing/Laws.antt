-- ===== src/Environment/Clearing/Laws.antt =====
-- Which containers are left when the chaincodes are cleared.
use fabric_common.Base.{
  ◌≡◌, refl, sym, ap, ◌∙◌, Bool, true, false, not, Option, List, [], ◌∷◌, ◌&&◌, ◌||◌, any, keep,
  arith, Text, text_eq,
}
use fabric_common.Base.Result.{Result, ok}
use fabric_common.Environment.Clearing.{
  Container, Engine, filtered, chaincode_container_list, delete_containers, chaincode_clear,
}

keep-keep :
    {A : Type 0} (p q : A → Bool) (xs : List A) → keep p (keep q xs) ≡ keep (λ x. q x && p x) xs
keep-keep p q [] = refl
keep-keep p q (x ∷ xs) = ground (arith, keep-keep p q xs)

keep-eq :
    {A : Type 0} (p q : A → Bool) → ((x : A) → p x ≡ q x) → (xs : List A) → keep p xs ≡ keep q xs
keep-eq p q h [] = refl
keep-eq p q h (x ∷ xs) = ground (arith, h x, keep-eq p q h xs)

keep-all : {A : Type 0} (xs : List A) → keep (λ x. true) xs ≡ xs
keep-all [] = refl
keep-all (x ∷ xs) = ap (λ r. x ∷ r) (keep-all xs)

not-or : (a b : Bool) → not a && not b ≡ not (a || b)
not-or true b = refl
not-or false b = refl

abbrev pub is_target : List Container → Container → Bool
is_target cs c = any (λ t. text_eq c.id t.id) cs

-- Each deletion returns; one of a container takes those with its id out of the list, and one of an
-- image takes none.
pub record Deletes {X : Type 0} (engine : Engine X) : Type 0 where
  pub container :
      (id : Text) (s : engine.State)
      → (s' : engine.State) × (engine.container_delete id s ≡ (ok tt, s'))
        × (engine.container_list s' ≡ keep (λ c. not (text_eq c.id id)) (engine.container_list s))
  pub image :
      (id : Text) (s : engine.State)
      → (s' : engine.State) × (engine.image_delete id s ≡ (ok tt, s'))
        × (engine.container_list s' ≡ engine.container_list s)

module _ {X : Type 0} (engine : Engine X) (deletes : Deletes engine) where
  abbrev pub Cleared : List Container → engine.State → Result X (Unit {0}) × engine.State → Type 0
  Cleared cs s r =
      (r.0 ≡ ok tt)
      × (engine.container_list r.1 ≡ keep (λ c. not (is_target cs c)) (engine.container_list s))

  delete_containers-Cleared :
      (cs : List Container) (s : engine.State) → Cleared cs s (delete_containers engine cs s)
  unfolding delete_containers
  delete_containers-Cleared [] s = (refl, sym (keep-all (engine.container_list s)))
  delete_containers-Cleared (c ∷ cs) s =
      let (s1, run, list1) = deletes.container c.id s in
      let (s2, run', list2) = deletes.image c.image s1 in
      let (returned, listed) = delete_containers-Cleared cs s2 in
      rw (run, run')
        (
          returned,
          listed
              ∙ ap (keep (λ x. not (is_target cs x))) (list2 ∙ list1)
              ∙ keep-keep (λ x. not (is_target cs x)) (λ x. not (text_eq x.id c.id))
                  (engine.container_list s)
              ∙ keep-eq (λ x. not (text_eq x.id c.id) && not (is_target cs x))
                  (λ x. not (is_target (c ∷ cs) x))
                  (λ x. not-or (text_eq x.id c.id) (is_target cs x)) (engine.container_list s),
        )

  -- Where the engine's deletions return and take out what they name, the clearing of chaincodes
  -- returns, and the containers that are left are those before it but for those with the id of a
  -- chaincode's container that the filter lets through.
  pub chaincode_clear-Cleared :
      (filter : Option (Container → Bool)) (s : engine.State)
      → Cleared
          (filtered filter (chaincode_container_list engine s))
          s
          (chaincode_clear engine filter s)
  unfolding chaincode_clear
  chaincode_clear-Cleared filter s =
      delete_containers-Cleared (filtered filter (chaincode_container_list engine s)) s
