-- ===== src/Node/Rpc.antt =====
-- node/src/rpc.rs: the methods that a full node serves beside those of every Substrate node.
use Prim.Native.String.{String}
use mathlib.Core.Logic.{◌↔◌}
use nft101_rust.Prelude.{◌≡◌, refl, sym, ◌∙◌, ◌⊎◌, inl, inr, Option, none, some, Option-cases}

-- `FullDeps`
pub record FullDeps (C P D : Type 0) : Type 0 where
  pub client : C
  pub pool : P
  pub deny_unsafe : D

abbrev pub or_else : {A : Type 0} → Option A → Option A → Option A
or_else none m = m
or_else (some a) m = some a

-- The `IoHandler` of jsonrpc-core, whose methods are replaced by later ones of the same name, and the methods of the
-- two APIs, from what they are made of.
pub record Rpc (C P D M I : Type 0) : Type 0 where
  pub default : I
  pub extend_with : I → (String → Option M) → I
  pub method : I → String → Option M
  pub full_system : C → P → D → String → Option M
  pub transaction_payment : C → String → Option M
  pub method-default : (name : String) → method default name ≡ none
  pub method-extend_with :
      (io : I) (delegate : String → Option M) (name : String)
      → method (extend_with io delegate) name ≡ or_else (delegate name) (method io name)

module _ {C P D M I : Type 0} (rpc : Rpc C P D M I) where
  open rpc use {
    default, extend_with, method, full_system, transaction_payment, method-default,
    method-extend_with,
  }

  unfoldable pub create_full : FullDeps C P D → I
  create_full deps =
      let io = extend_with default (full_system deps.client deps.pool deps.deny_unsafe) in
      extend_with io (transaction_payment deps.client)

  -- The builder that `new_full` hands over, which makes the methods of each connection by its policy.
  unfoldable pub rpc_extensions_builder : C → P → D → I
  rpc_extensions_builder client pool deny_unsafe =
      create_full (record { client = client; pool = pool; deny_unsafe = deny_unsafe })

  -- Whether a method is one of the two APIs.
  abbrev pub IsServed : C → P → D → String → M → Type 0
  IsServed client pool deny_unsafe name m =
      (transaction_payment client name ≡ some m)
      ⊎ ((transaction_payment client name ≡ none)
          × (full_system client pool deny_unsafe name ≡ some m))

  method_lem :
      (client : C) (pool : P) (deny_unsafe : D) (name : String)
      → method (rpc_extensions_builder client pool deny_unsafe) name
        ≡ or_else (transaction_payment client name) (full_system client pool deny_unsafe name)
  unfolding rpc_extensions_builder create_full
  method_lem client pool deny_unsafe name =
      elim (Option-cases (full_system client pool deny_unsafe name)) [
        | inl n ↦ rw (method-extend_with, method-extend_with, method-default, n) refl
        | inr (m, e) ↦ rw (method-extend_with, method-extend_with, method-default, e) refl
      ]

  -- The extension that is made for a connection has just the methods of the two APIs: those of the fees for the node's
  -- client, whatever the policy of the connection is, and else those of the system for its client, its pool and the
  -- policy of the connection.
  pub method-IsServed :
      (client : C) (pool : P) (deny_unsafe : D) (name : String) (m : M)
      → (method (rpc_extensions_builder client pool deny_unsafe) name ≡ some m)
        ↔ IsServed client pool deny_unsafe name m
  method-IsServed client pool deny_unsafe name m =
      elim (Option-cases (transaction_payment client name)) [
        | inl n ↦ (
          (λ e. inr (n, sym (rw n at (method_lem client pool deny_unsafe name)) ∙ e)),
          λ s. elim s [
            | inl e ↦ cc
            | inr (_, e) ↦ method_lem client pool deny_unsafe name ∙ rw n e
          ],
        )
        | inr (m', q) ↦ (
          (λ e. inl (q ∙ (sym (rw q at (method_lem client pool deny_unsafe name)) ∙ e))),
          λ s. elim s [
            | inl e ↦ method_lem client pool deny_unsafe name ∙ rw q (sym q ∙ e)
            | inr (n, _) ↦ cc
          ],
        )
      ]
