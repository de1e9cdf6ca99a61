-- ===== src/Node/ChainSpec.antt =====
-- node/src/chain_spec.rs: the genesis of the development and of the local chain.
pub mod Genesis
use Prim.Native.String.{String, ◌++◌}
use nft101_rust.Prelude.{ℕ, ◌^◌, Option, none, some, List, [], ◌∷◌, map}
use nft101_rust.Prelude.Partial.{◌>>=◌}

-- `Result<A, String>`
pub data Result (A : Type 0) : Type 0 where
  ok : A → Result A
  err : String → Result A

-- `sp_core`'s keys: the public key of the pair that a seed gives (`none`: not a valid seed) by
-- each scheme, and the account of an sr25519 key.
pub record Keys (Public Account AuraId GrandpaId : Type 0) : Type 0 where
  pub sr25519_from_string : String → Option Public
  pub aura_from_string : String → Option AuraId
  pub grandpa_from_string : String → Option GrandpaId
  pub into_account : Public → Account

-- The parts of `GenesisConfig`. The code is its bytes.
pub record GenesisConfig (Account AuraId GrandpaId : Type 0) : Type 0 where
  pub code : List ℕ
  pub balances : List (Account × ℕ)
  pub aura_authorities : List AuraId
  pub grandpa_authorities : List (GrandpaId × ℕ)
  pub sudo_key : Account

pub data ChainType : Type 0 where
  development local : ChainType

-- The chain specification. The genesis is a closure, which panics (`none`) on an invalid seed. The
-- fields that are empty for both chains (boot nodes, telemetry, ..) are left out.
pub record Spec (Account AuraId GrandpaId : Type 0) : Type 0 where
  pub spec_name : String
  pub spec_id : String
  pub chain_type : ChainType
  pub genesis : Option (GenesisConfig Account AuraId GrandpaId)

-- `get_from_seed`
abbrev pub get_from_seed : {P : Type 0} → (String → Option P) → String → Option P
get_from_seed from_string seed = from_string ("//" ++ seed)

-- `vec![f(a), f(b), ..]`
abbrev pub vec_of : {A B : Type 0} → (A → Option B) → List A → Option (List B)
vec_of f [] = some []
vec_of f (a ∷ rest) = do b ← f a; bs ← vec_of f rest; some (b ∷ bs)

module _ {Account AuraId GrandpaId : Type 0} where
  unfoldable pub testnet_genesis :
      List ℕ
      → List (AuraId × GrandpaId)
      → Account
      → List Account
      → GenesisConfig Account AuraId GrandpaId
  testnet_genesis wasm_binary initial_authorities root_key endowed_accounts = record {
    code = wasm_binary;
    balances = map (λ k. (k, 2 ^ 60)) endowed_accounts;
    aura_authorities = map (λ x. x.0) initial_authorities;
    grandpa_authorities = map (λ x. (x.1, 1)) initial_authorities;
    sudo_key = root_key;
  }

  module _ {Public : Type 0} (keys : Keys Public Account AuraId GrandpaId) where
    abbrev pub get_account_id_from_seed : String → Option Account
    get_account_id_from_seed seed = do
      key ← get_from_seed keys.sr25519_from_string seed
      some (keys.into_account key)

    abbrev pub authority_keys_from_seed : String → Option (AuraId × GrandpaId)
    authority_keys_from_seed s = do
      aura ← get_from_seed keys.aura_from_string s
      grandpa ← get_from_seed keys.grandpa_from_string s
      some (aura, grandpa)

    -- The genesis that both configurations make, from their authorities and endowed seeds.
    unfoldable pub genesis_of :
        List String → List String → List ℕ → Option (GenesisConfig Account AuraId GrandpaId)
    genesis_of authorities endowed wasm_binary = do
      initial_authorities ← vec_of authority_keys_from_seed authorities
      root_key ← get_account_id_from_seed "Alice"
      endowed_accounts ← vec_of get_account_id_from_seed endowed
      some (testnet_genesis wasm_binary initial_authorities root_key endowed_accounts)

    abbrev missing : String
    missing = "Development wasm binary not available"

    -- From `WASM_BINARY`, which the build makes.
    unfoldable pub development_config : Option (List ℕ) → Result (Spec Account AuraId GrandpaId)
    development_config none = err missing
    development_config (some wasm_binary) = ok (record {
      spec_name = "Development";
      spec_id = "dev";
      chain_type = development;
      genesis =
          genesis_of ("Alice" ∷ []) ("Alice" ∷ "Bob" ∷ "Alice//stash" ∷ "Bob//stash" ∷ [])
            wasm_binary;
    })

    unfoldable pub local_testnet_config : Option (List ℕ) → Result (Spec Account AuraId GrandpaId)
    local_testnet_config none = err missing
    local_testnet_config (some wasm_binary) = ok (record {
      spec_name = "Local Testnet";
      spec_id = "local_testnet";
      chain_type = local;
      genesis =
          genesis_of ("Alice" ∷ "Bob" ∷ [])
            ("Alice" ∷ "Bob" ∷ "Charlie" ∷ "Dave" ∷ "Eve" ∷ "Ferdie" ∷ "Alice//stash" ∷ "Bob//stash"
              ∷ "Charlie//stash" ∷ "Dave//stash" ∷ "Eve//stash" ∷ "Ferdie//stash" ∷ [])
            wasm_binary;
    })
