-- ===== src/Nft/Cases/Items.antt =====
-- How `create`, `remove`, `transfer` and `order_sell` of pallets/nft/src/lib.rs can end.
use nft101_rust.Prelude.{ℕ, ◌+◌, ◌≤◌, ◌≡◌, none, some, List, inl}
use nft101_rust.Frame.{AccountId, Host, accepted}
use nft101_rust.Nft.Types.{State, Nft, Config, Error, DispatchError}
use nft101_rust.Nft.Effects.{Outcome, done, failed}
use nft101_rust.Nft.Calls as Calls
use nft101_rust.Nft.Dispatch.{create, remove, transfer, order_sell}
use nft101_rust.Nft.Reasons.{Reason}
use nft101_rust.Nft.Steps.{reply-step, free_nft-step, checked_add-step, ensure_le-step}
use nft101_rust.Nft.States.{created, removed, transferred, listed}
use nft101_rust.Nft.Guards.{SellGuards, new_order}

module _ {O L F N : Type 0} (h : Host O L F N) (c : Config F) (P : Outcome L (Unit {0}) → Type 0)
    (origin : O) (s : State L) where
  pub create_cases :
      (title url desc : List ℕ)
      → ((e : DispatchError) → Reason h c origin s (create title url desc) e → P (failed e s))
      → ((who : AccountId)
          → h.ensure_signed origin ≡ accepted who
          → s.next_nft_id + 1 ≤ c.max_nft_id
          → P (done tt (created who (record { title = title; url = url; desc = desc }) s)))
      → P (Calls.create h c origin title url desc s)
  unfolding Calls.create
  create_cases title url desc bad good =
      reply-step P (h.ensure_signed origin) _ s (λ e r. bad _ (inl r))
        λ who sg.
          checked_add-step P c.max_nft_id s.next_nft_id 1 Error.nft_id_overflow _ s (bad _)
            λ room. good who sg room

  pub remove_cases :
      (n : ℕ)
      → ((e : DispatchError) → Reason h c origin s (remove n) e → P (failed e s))
      → ((who : AccountId) (nft : Nft)
          → h.ensure_signed origin ≡ accepted who
          → s.nfts n ≡ some nft
          → s.nft_account n ≡ who
          → s.nft_order n ≡ none
          → P (done tt (removed c.default_account who n s)))
      → P (Calls.remove h c origin n s)
  unfolding Calls.remove
  remove_cases n bad good =
      reply-step P (h.ensure_signed origin) _ s (λ e r. bad _ (inl r))
        λ who sg.
          free_nft-step P who n _ s (bad _) (λ other. bad _ (who, sg, other))
            (λ o taken. bad _ (o, taken)) λ nft found owner free. good who nft sg found owner free

  pub transfer_cases :
      (target n : ℕ)
      → ((e : DispatchError) → Reason h c origin s (transfer target n) e → P (failed e s))
      → ((who : AccountId) (nft : Nft)
          → h.ensure_signed origin ≡ accepted who
          → s.nfts n ≡ some nft
          → s.nft_account n ≡ who
          → s.nft_order n ≡ none
          → P (done tt (transferred who target n s)))
      → P (Calls.transfer h c origin target n s)
  unfolding Calls.transfer
  transfer_cases target n bad good =
      reply-step P (h.ensure_signed origin) _ s (λ e r. bad _ (inl r))
        λ who sg.
          free_nft-step P who n _ s (bad _) (λ other. bad _ (who, sg, other))
            (λ o taken. bad _ (o, taken)) λ nft found owner free. good who nft sg found owner free

  pub sell_cases :
      (n start_price end_price keep : ℕ)
      → ((e : DispatchError)
          → Reason h c origin s (order_sell n start_price end_price keep) e
          → P (failed e s))
      → ((who : AccountId)
          → let order = new_order who n start_price end_price keep s in
            SellGuards h c origin s who order → P (done tt (listed order s)))
      → P (Calls.order_sell h c origin n start_price end_price keep s)
  unfolding Calls.order_sell
  sell_cases n start_price end_price keep bad good =
      reply-step P (h.ensure_signed origin) _ s (λ e r. bad _ (inl r))
        λ who sg.
          ensure_le-step P keep c.max_keep_block_number Error.keep_block_num_too_big _ s (bad _)
            λ k1.
              ensure_le-step P c.min_keep_block_number keep Error.keep_block_num_too_small _ s
                (bad _)
                λ k2.
                  free_nft-step P who n _ s (bad _) (λ other. bad _ (who, sg, other))
                    (λ o taken. bad _ (o, taken))
                    λ nft found owner free.
                      ensure_le-step P c.minimum_price start_price Error.start_price_too_low _ s
                        (bad _)
                        λ p1.
                          ensure_le-step P start_price end_price Error.order_price_illegal _ s
                            (bad _)
                            λ p2.
                              checked_add-step P c.max_order_id s.next_order_id 1
                                Error.order_id_overflow _ s (bad _)
                                λ room. good who (record {
                                  signer = sg;
                                  keep_le = k1;
                                  keep_ge = k2;
                                  exists = (nft, found);
                                  owned = owner;
                                  unlisted = free;
                                  price_ge = p1;
                                  price_le = p2;
                                  room = room;
                                })
