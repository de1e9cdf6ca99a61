-- ===== src/Runtime/Apis.antt =====
-- `impl_runtime_apis!` of runtime/src/lib.rs: what the runtime answers to the node. The modules of FRAME that it forwards
-- to are parameters.
pub mod Benchmarks
use nft101_rust.Prelude.{ℕ, Option, none, some, List}
use Prim.Native.String.{String}

-- `RuntimeVersion`, whose list of the served APIs is generated.
pub record RuntimeVersion (Apis : Type 0) : Type 0 where
  pub spec_name : String
  pub impl_name : String
  pub authoring_version : ℕ
  pub spec_version : ℕ
  pub impl_version : ℕ
  pub apis : Apis
  pub transaction_version : ℕ

-- `VERSION`
abbrev pub version_of : {Apis : Type 0} → Apis → RuntimeVersion Apis
version_of apis = record {
  spec_name = "nft-swap";
  impl_name = "nft-swap";
  authoring_version = 1;
  spec_version = 100;
  impl_version = 1;
  apis = apis;
  transaction_version = 1;
}

-- The types that the APIs pass on, and the state that they run on.
pub record Kinds : Type 1 where
  pub World : Type 0
  pub Apis : Type 0
  pub Block : Type 0
  pub Header : Type 0
  pub Extrinsic : Type 0
  pub Hash : Type 0
  pub Metadata : Type 0
  pub Applied : Type 0
  pub InherentData : Type 0
  pub InherentsResult : Type 0
  pub Source : Type 0
  pub Validity : Type 0
  pub Account : Type 0
  pub AuraId : Type 0
  pub GrandpaId : Type 0
  pub KeyType : Type 0
  pub EquivocationProof : Type 0
  pub OwnershipProof : Type 0
  pub DispatchInfo : Type 0

module _ (k : Kinds) where
  -- A run on a state. `none` is a panic, such as that of a block that is not valid.
  abbrev pub Runs : Type 0 → Type 0
  Runs A = k.World → Option (A × k.World)

  -- The functions of the modules that the APIs call, under their names.
  pub record Modules : Type 0 where
    pub apis : k.Apis
    pub execute_block : k.Block → Runs (Unit {0})
    pub initialize_block : k.Header → Runs (Unit {0})
    pub metadata : Runs k.Metadata
    pub apply_extrinsic : k.Extrinsic → Runs k.Applied
    pub finalize_block : Runs k.Header
    pub create_extrinsics : k.InherentData → Runs (List k.Extrinsic)
    pub check_extrinsics : k.InherentData → k.Block → Runs k.InherentsResult
    pub random_seed : Runs k.Hash
    pub validate_transaction : k.Source → k.Extrinsic → Runs k.Validity
    pub offchain_worker : k.Header → Runs (Unit {0})
    pub slot_duration : Runs ℕ
    pub aura_authorities : Runs (List k.AuraId)
    pub generate : Option (List ℕ) → Runs (List ℕ)
    pub decode_into_raw_public_keys : List ℕ → Runs (Option (List (List ℕ × k.KeyType)))
    pub grandpa_authorities : Runs (List (k.GrandpaId × ℕ))
    pub account_nonce : k.Account → Runs ℕ
    pub query_info : k.Extrinsic → ℕ → Runs k.DispatchInfo

  -- The functions of the APIs, with their arguments.
  pub data ApiCall : Type 0 where
    version : ApiCall
    execute_block : k.Block → ApiCall
    initialize_block : k.Header → ApiCall
    metadata : ApiCall
    apply_extrinsic : k.Extrinsic → ApiCall
    finalize_block : ApiCall
    inherent_extrinsics : k.InherentData → ApiCall
    check_inherents : k.Block → k.InherentData → ApiCall
    random_seed : ApiCall
    validate_transaction : k.Source → k.Extrinsic → ApiCall
    offchain_worker : k.Header → ApiCall
    slot_duration : ApiCall
    authorities : ApiCall
    generate_session_keys : Option (List ℕ) → ApiCall
    decode_session_keys : List ℕ → ApiCall
    grandpa_authorities : ApiCall
    submit_report_equivocation_unsigned_extrinsic : k.EquivocationProof → k.OwnershipProof → ApiCall
    generate_key_ownership_proof : ℕ → k.GrandpaId → ApiCall
    account_nonce : k.Account → ApiCall
    query_info : k.Extrinsic → ℕ → ApiCall

  -- What each of them returns.
  abbrev pub Answer : ApiCall → Type 0
  Answer version = RuntimeVersion k.Apis
  Answer (execute_block _) = Unit {0}
  Answer (initialize_block _) = Unit {0}
  Answer metadata = k.Metadata
  Answer (apply_extrinsic _) = k.Applied
  Answer finalize_block = k.Header
  Answer (inherent_extrinsics _) = List k.Extrinsic
  Answer (check_inherents _ _) = k.InherentsResult
  Answer random_seed = k.Hash
  Answer (validate_transaction _ _) = k.Validity
  Answer (offchain_worker _) = Unit {0}
  Answer slot_duration = ℕ
  Answer authorities = List k.AuraId
  Answer (generate_session_keys _) = List ℕ
  Answer (decode_session_keys _) = Option (List (List ℕ × k.KeyType))
  Answer grandpa_authorities = List (k.GrandpaId × ℕ)
  Answer (submit_report_equivocation_unsigned_extrinsic _ _) = Option (Unit {0})
  Answer (generate_key_ownership_proof _ _) = Option k.OwnershipProof
  Answer (account_nonce _) = ℕ
  Answer (query_info _ _) = k.DispatchInfo

  -- The runtime's answers.
  unfoldable pub answer : Modules → (call : ApiCall) → Runs (Answer call)
  answer m version = λ w. some (version_of m.apis, w)
  answer m (execute_block block) = m.execute_block block
  answer m (initialize_block header) = m.initialize_block header
  answer m metadata = m.metadata
  answer m (apply_extrinsic extrinsic) = m.apply_extrinsic extrinsic
  answer m finalize_block = m.finalize_block
  answer m (inherent_extrinsics inherents) = m.create_extrinsics inherents
  answer m (check_inherents block inherents) = m.check_extrinsics inherents block
  answer m random_seed = m.random_seed
  answer m (validate_transaction source extrinsic) = m.validate_transaction source extrinsic
  answer m (offchain_worker header) = m.offchain_worker header
  answer m slot_duration = m.slot_duration
  answer m authorities = m.aura_authorities
  answer m (generate_session_keys seed) = m.generate seed
  answer m (decode_session_keys encoded) = m.decode_into_raw_public_keys encoded
  answer m grandpa_authorities = m.grandpa_authorities
  answer m (submit_report_equivocation_unsigned_extrinsic _ _) = λ w. some (none, w)
  answer m (generate_key_ownership_proof _ _) = λ w. some (none, w)
  answer m (account_nonce account) = m.account_nonce account
  answer m (query_info uxt len) = m.query_info uxt len
