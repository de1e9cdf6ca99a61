-- ===== src/Node/About.antt =====
-- What the command line of node/src/command.rs tells of itself (`impl SubstrateCli for Cli`), beside the chains that it loads.
use Prim.Native.String.{String}
use nft101_rust.Prelude.{ℕ}
use nft101_rust.Runtime.Apis.{RuntimeVersion, version_of}

-- What the build puts into its environment.
pub record Environment : Type 0 where
  pub substrate_cli_impl_version : String
  pub cargo_pkg_description : String
  pub cargo_pkg_authors : String

pub record About (Apis : Type 0) : Type 0 where
  pub impl_name : String
  pub impl_version : String
  pub description : String
  pub author : String
  pub support_url : String
  pub copyright_start_year : ℕ
  pub native_runtime_version : RuntimeVersion Apis

abbrev pub about : {Apis : Type 0} → Environment → Apis → About Apis
about env apis = record {
  impl_name = "Substrate Node";
  impl_version = env.substrate_cli_impl_version;
  description = env.cargo_pkg_description;
  author = env.cargo_pkg_authors;
  support_url = "support.anonymous.an";
  copyright_start_year = 2017;
  native_runtime_version = version_of apis;
}
