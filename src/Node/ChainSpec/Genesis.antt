-- ===== src/Node/ChainSpec/Genesis.antt =====
-- What the genesis of node/src/chain_spec.rs gives the pallets of the runtime.
use Prim.Native.String.{String}
use nft101_rust.Prelude.{
  ℕ, ◌+◌, ◌*◌, ◌^◌, ◌≤◌, ◌<◌, ◌≡◌, refl, ap, subst, sym, ◌∙◌, ◌⊎◌, inl, inr, Option, none, some,
  List, [], ◌∷◌, map, All, All-map, arith,
}
use mathlib.Core.Option.{some-injective}
use nft101_rust.Prelude.Partial.{bind-step}
use nft101_rust.Runtime.{existential_deposit, dollars}
use nft101_rust.Node.ChainSpec.{
  Result, ok, err, Keys, GenesisConfig, Spec, testnet_genesis, genesis_of, vec_of,
  get_account_id_from_seed, authority_keys_from_seed, development_config, local_testnet_config,
}

abbrev pub length : {A : Type 0} → List A → ℕ
length [] = 0
length (x ∷ xs) = 1 + length xs

abbrev pub issued : {A : Type 0} → List (A × ℕ) → ℕ
issued [] = 0
issued ((_, n) ∷ rest) = n + issued rest

-- Whether an account is endowed.
abbrev pub Endowed : {A : Type 0} → A → List (A × ℕ) → Type 0
Endowed a [] = ⊥
Endowed a ((b, _) ∷ rest) = (a ≡ b) ⊎ Endowed a rest

length-vec_of :
    {A B : Type 0} (f : A → Option B) (xs : List A) (ys : List B)
    → vec_of f xs ≡ some ys
    → length ys ≡ length xs
length-vec_of f [] ys e = ground arith
length-vec_of f (x ∷ xs) ys e = bind-step (f x) e λ b _ e1.
    bind-step (vec_of f xs) e1
      λ bs e2 e3. ground (arith, length-vec_of f xs bs e2, some-injective _ _ e3)

-- The first of the accounts is endowed.
Endowed-first :
    {A B : Type 0} (f : A → Option B) (x : A) (xs : List A) (y : B) (ys : List B)
    → f x ≡ some y
    → vec_of f (x ∷ xs) ≡ some ys
    → Endowed y (map (λ k. (k, 2 ^ 60)) ys)
Endowed-first f x xs y ys e v = bind-step (f x) v λ b e1 v1. bind-step (vec_of f xs) v1 λ bs e2 v2.
    subst (λ zs. Endowed y (map (λ k. (k, 2 ^ 60)) zs)) (some-injective _ _ v2)
      (inl (some-injective _ _ (sym e ∙ e1)))

length-map : {A B : Type 0} (f : A → B) (xs : List A) → length (map f xs) ≡ length xs
length-map f [] = refl
length-map f (x ∷ xs) = ground (arith, length-map f xs)

issued_lem : {A : Type 0} (xs : List A) → issued (map (λ k. (k, 2 ^ 60)) xs) ≡ length xs * 2 ^ 60
issued_lem [] = omega arith
issued_lem (x ∷ xs) = omega (arith, issued_lem xs)

module _ {Account AuraId GrandpaId : Type 0} where
  -- A genesis that the runtime can start from: the endowed accounts live and can pay the smallest
  -- price of the pallet, the issuance is a `u128`, the administrator is endowed, and there
  -- are authorities, as many for Aura as for Grandpa, each with weight 1.
  pub record IsUsable (code : List ℕ) (g : GenesisConfig Account AuraId GrandpaId) : Type 0 where
    pub same_code : g.code ≡ code
    pub alive : All (λ b. existential_deposit ≤ b.1) g.balances
    pub able : All (λ b. dollars ≤ b.1) g.balances
    pub issuance : issued g.balances < 2 ^ 128
    pub admin : Endowed g.sudo_key g.balances
    pub sealing : 0 < length g.aura_authorities
    pub finality : length g.grandpa_authorities ≡ length g.aura_authorities
    pub weights : All (λ a. a.1 ≡ 1) g.grandpa_authorities

  -- The genesis is usable if there is an authority, the administrator is an endowed account and
  -- there are fewer than 2 ^ 68 of these.
  pub testnet_genesis-IsUsable :
      (code : List ℕ) (authorities : List (AuraId × GrandpaId)) (root_key : Account)
      (endowed : List Account)
      → 0 < length authorities
      → length endowed < 2 ^ 68
      → Endowed root_key (map (λ k. (k, 2 ^ 60)) endowed)
      → IsUsable code (testnet_genesis code authorities root_key endowed)
  unfolding testnet_genesis
  testnet_genesis-IsUsable code authorities root_key endowed some_authority few known = record {
    same_code = refl;
    alive = All-map (λ b. existential_deposit ≤ b.1) (λ k. (k, 2 ^ 60)) (λ _. omega arith) endowed;
    able = All-map (λ b. dollars ≤ b.1) (λ k. (k, 2 ^ 60)) (λ _. omega arith) endowed;
    issuance = omega (arith, issued_lem endowed);
    admin = known;
    sealing = rw (length-map (λ x. x.0) authorities) some_authority;
    finality = length-map (λ x. (x.1, 1)) authorities ∙ sym (length-map (λ x. x.0) authorities);
    weights = All-map (λ a. a.1 ≡ 1) (λ x. (x.1, 1)) (λ _. refl) authorities;
  }

  abbrev genesis_in :
      Result (Spec Account AuraId GrandpaId) → Option (GenesisConfig Account AuraId GrandpaId)
  genesis_in (err _) = none
  genesis_in (ok spec) = spec.genesis

  module _ {Public : Type 0} (keys : Keys Public Account AuraId GrandpaId) where
    genesis_of-IsUsable :
        (authorities rest : List String) (code : List ℕ)
        (g : GenesisConfig Account AuraId GrandpaId)
        → 0 < length authorities
        → length rest < 2 ^ 67
        → genesis_of keys authorities ("Alice" ∷ rest) code ≡ some g
        → IsUsable code g
    unfolding genesis_of
    genesis_of-IsUsable authorities rest code g some_authority few e =
        bind-step (vec_of (authority_keys_from_seed keys) authorities) e λ auths a1 e1.
          bind-step (get_account_id_from_seed keys "Alice") e1 λ root a2 e2.
            bind-step (vec_of (get_account_id_from_seed keys) ("Alice" ∷ rest)) e2 λ endowed a3 e3.
              subst (IsUsable code) (some-injective _ _ e3) (
                testnet_genesis-IsUsable code auths root endowed
                  (rw (length-vec_of (authority_keys_from_seed keys) authorities auths a1)
                    some_authority)
                  (omega (
                    arith,
                    length-vec_of (get_account_id_from_seed keys) ("Alice" ∷ rest) endowed a3,
                  ))
                  (Endowed-first (get_account_id_from_seed keys) "Alice" rest root endowed a2 a3))

    -- The genesis of the development chain and that of the local chain are usable, whatever the keys
    -- are that the seeds give: with the code that the build made, the endowed accounts live and can pay
    -- the smallest price, the issuance is a `u128`, the administrator is endowed, and Aura and Grandpa
    -- have equally many authorities, one at least, and each counts once for Grandpa.
    pub chains-IsUsable :
        (code : List ℕ) (spec : Spec Account AuraId GrandpaId)
        (g : GenesisConfig Account AuraId GrandpaId)
        → (development_config keys (some code) ≡ ok spec)
          ⊎ (local_testnet_config keys (some code) ≡ ok spec)
        → spec.genesis ≡ some g
        → IsUsable code g
    unfolding development_config local_testnet_config
    chains-IsUsable code spec g (inl e) q =
        genesis_of-IsUsable ("Alice" ∷ []) ("Bob" ∷ "Alice//stash" ∷ "Bob//stash" ∷ []) code g
          (omega arith) (omega arith) (ap genesis_in e ∙ q)
    chains-IsUsable code spec g (inr e) q =
        genesis_of-IsUsable ("Alice" ∷ "Bob" ∷ [])
          ("Bob" ∷ "Charlie" ∷ "Dave" ∷ "Eve" ∷ "Ferdie" ∷ "Alice//stash" ∷ "Bob//stash"
            ∷ "Charlie//stash" ∷ "Dave//stash" ∷ "Eve//stash" ∷ "Ferdie//stash" ∷ [])
          code g (omega arith) (omega arith) (ap genesis_in e ∙ q)
