-- ===== src/Nft/Cases/Orders.antt =====
-- How `order_buy`, `order_settlement` and `vote_order` of pallets/nft/src/lib.rs can end.
use nft101_rust.Prelude.{
  ℕ, ◌+◌, ◌-◌, ◌≤◌, ◌<◌, ◌≡◌, none, some, Option-cases, Bool-cases, leb, leb→le, leb→lt, inl, inr,
  arith,
}
use nft101_rust.Frame.{AccountId, Host, accepted, refused}
use nft101_rust.Nft.Types.{State, Order, Bid, Config, Event, Error, DispatchError, foreign}
use nft101_rust.Nft.Effects.{Outcome, done, failed, panicked, and_then, deposit_event}
use nft101_rust.Nft.Parts.{clean_order_bid, cancel}
use nft101_rust.Nft.Calls as Calls
use nft101_rust.Nft.Dispatch.{order_buy, order_settlement, vote_order}
use nft101_rust.Nft.Reasons.{Reason}
use nft101_rust.Nft.Payout.{algorithm}
use nft101_rust.Nft.Steps.{
  ok_or-step, reply-step, time-step, checked_add-step, checked_sub-step, ensure_le-step,
  ensure_running-step, ensure_over-step,
}
use nft101_rust.Nft.States.{logged, completed, voted, released, outbid, cancelled}
use nft101_rust.Nft.Guards.{OnOrder, BuyGuards}
use nft101_rust.Nft.Cases.Parts.{outbids-step, complete_cases, release_lem, place_cases}

module _ {O L F N : Type 0} (h : Host O L F N) (c : Config F) (P : Outcome L (Unit {0}) → Type 0)
    (origin : O) (s : State L) where
  pub buy_cases :
      (order_id price : ℕ)
      → ((e : DispatchError) → Reason h c origin s (order_buy order_id price) e → P (failed e s))
      → ((who : AccountId) (order : Order) (l : L)
          → BuyGuards h c origin s order_id price who order
          → order.end_price ≤ price
          → h.currency.transfer who order.owner order.end_price s.ledger ≡ accepted l
          → algorithm h c order order.end_price (s.votes order.order_id) l ≡ none
          → P panicked)
      → ((who : AccountId) (order : Order) (l paid : L)
          → BuyGuards h c origin s order_id price who order
          → order.end_price ≤ price
          → h.currency.transfer who order.owner order.end_price s.ledger ≡ accepted l
          → algorithm h c order order.end_price (s.votes order.order_id) l ≡ some paid
          → P (done tt (released h order_id (s.bids order_id) (completed order who paid s))))
      → ((who : AccountId) (order : Order) (l : L)
          → BuyGuards h c origin s order_id price who order
          → price < order.end_price
          → h.currency.reserve who price s.ledger ≡ accepted l
          → P (
              done tt (
                outbid h order_id
                  (s.bids order_id)
                  (record { order_id = order_id; price = price; owner = who })
                  l
                  s)))
      → P (Calls.order_buy h c origin order_id price s)
  unfolding Calls.order_buy clean_order_bid
  buy_cases order_id price bad panics sold bid =
      reply-step P (h.ensure_signed origin) _ s (λ e r. bad _ (inl r))
        λ who sg. ok_or-step P (s.orders order_id) Error.order_not_exist _ s (bad _) λ order found.
          time-step P order _ s (λ early. bad _ (order, found, early))
            λ started.
              ensure_running-step P order.keep_block_num (s.block_number - order.create_block)
                Error.is_time_to_settlement _ s (λ out. bad _ (order, found, out))
                λ running.
                  ensure_le-step P c.minimum_price price Error.price_too_low _ s (bad _) λ p1.
                    ensure_le-step P order.start_price price Error.order_price_too_small _ s
                      (λ low. bad _ (inl (order, found, low)))
                      λ p2.
                        outbids-step P (s.bids order_id) price _ s
                          (λ best there low. bad _ (inr (best, there, low)))
                          λ beats.
                            let g : BuyGuards h c origin s order_id price who order = record {
                              on = record { signer = sg; found = found; started = started };
                              running = running;
                              price_ge = p1;
                              start_le = p2;
                              outbids = beats;
                            } in
                            elim (Bool-cases (leb order.end_price price)) [
                              | inl e ↦ rw e (
                                  complete_cases h c
                                    (λ r. P (and_then r (λ _. clean_order_bid h order_id))) order
                                    who order.end_price who s
                                    (λ e r. bad _ (inr (who, order, sg, found, inl r)))
                                    (λ l moved broke.
                                      panics who order l g (leb→le _ _ e) moved broke)
                                    λ l paid moved shares.
                                      release_lem h c P order_id (s.bids order_id) _
                                        (sold who order l paid g (leb→le _ _ e) moved shares))
                              | inr e ↦ rw e (
                                  place_cases h c P who order_id price s
                                    (λ e r. bad _ (inr (who, order, sg, found, inr r)))
                                    λ l locked. bid who order l g (leb→lt _ _ e) locked)
                            ]

  pub settlement_cases :
      (order_id : ℕ)
      → ((e : DispatchError) → Reason h c origin s (order_settlement order_id) e → P (failed e s))
      → ((who : AccountId) (order : Order) (bid : Bid) (l : L)
          → OnOrder h origin s order_id who order
          → order.keep_block_num < s.block_number - order.create_block
          → s.bids order_id ≡ some bid
          → h.currency.transfer bid.owner order.owner bid.price
              (h.currency.unreserve bid.owner bid.price s.ledger)
            ≡ accepted l
          → algorithm h c order bid.price (s.votes order.order_id) l ≡ none
          → P panicked)
      → ((who : AccountId) (order : Order)
          → OnOrder h origin s order_id who order
          → order.keep_block_num < s.block_number - order.create_block
          → s.bids order_id ≡ none
          → P (done tt (cancelled h order order_id s)))
      → ((who : AccountId) (order : Order) (bid : Bid) (e : ℕ)
          → OnOrder h origin s order_id who order
          → order.keep_block_num < s.block_number - order.create_block
          → s.bids order_id ≡ some bid
          → h.currency.transfer bid.owner order.owner bid.price
              (h.currency.unreserve bid.owner bid.price s.ledger)
            ≡ refused e
          → P (failed (foreign e) (released h order_id (some bid) s)))
      → ((who : AccountId) (order : Order) (bid : Bid) (l paid : L)
          → OnOrder h origin s order_id who order
          → order.keep_block_num < s.block_number - order.create_block
          → s.bids order_id ≡ some bid
          → h.currency.transfer bid.owner order.owner bid.price
              (h.currency.unreserve bid.owner bid.price s.ledger)
            ≡ accepted l
          → algorithm h c order bid.price (s.votes order.order_id) l ≡ some paid
          → P (
              done tt (
                logged
                  (Event.order_complete bid.owner order_id)
                  (completed order bid.owner paid (released h order_id (some bid) s)))))
      → P (Calls.order_settlement h c origin order_id s)
  unfolding Calls.order_settlement clean_order_bid cancel
  settlement_cases order_id bad panics cancels fails sells =
      reply-step P (h.ensure_signed origin) _ s (λ e r. bad _ (inl r))
        λ who sg. ok_or-step P (s.orders order_id) Error.order_not_exist _ s (bad _) λ order found.
          time-step P order _ s (λ early. bad _ (order, found, early))
            λ started.
              ensure_over-step P order.keep_block_num (s.block_number - order.create_block)
                Error.is_not_time_to_settlement _ s (λ out. bad _ (order, found, out))
                λ over.
                  let on : OnOrder h origin s order_id who order = record {
                    signer = sg;
                    found = found;
                    started = started;
                  } in
                  elim (Option-cases (s.bids order_id)) [
                    | inl e ↦ rw e (cancels who order on over e)
                    | inr (bid, e) ↦
                        rw (e, clean_order_bid, e)
                          ((complete_cases h c
                            (λ r. P (
                              and_then r
                                (λ _. deposit_event (Event.order_complete bid.owner order_id))))
                            order bid.owner bid.price who _
                            (λ e' r. fails who order bid e' on over e r)
                            (λ l moved broke. panics who order bid l on over e moved broke)
                            λ l paid moved shares.
                              sells who order bid l paid on over e moved shares))
                  ]

  pub vote_cases :
      (order_id amount : ℕ)
      → ((e : DispatchError) → Reason h c origin s (vote_order order_id amount) e → P (failed e s))
      → ((who : AccountId) (order : Order) (l : L)
          → OnOrder h origin s order_id who order
          → s.block_number - order.create_block ≤ order.keep_block_num
          → c.minimum_voting_lock ≤ amount
          → order.create_block + order.keep_block_num ≤ c.max_block_number
          → h.currency.reserve who amount s.ledger ≡ accepted l
          → P (
              done tt (
                voted order_id
                  (record {
                    order_id = order_id;
                    amount = amount;
                    keep_block_num = order.create_block + order.keep_block_num - s.block_number;
                    owner = who;
                  })
                  l
                  s)))
      → P (Calls.vote_order h c origin order_id amount s)
  unfolding Calls.vote_order
  vote_cases order_id amount bad good =
      reply-step P (h.ensure_signed origin) _ s (λ e r. bad _ (inl r))
        λ who sg. ok_or-step P (s.orders order_id) Error.order_not_exist _ s (bad _) λ order found.
          time-step P order _ s (λ early. bad _ (order, found, inl early))
            λ started.
              ensure_running-step P order.keep_block_num (s.block_number - order.create_block)
                Error.is_time_to_settlement _ s (λ out. bad _ (order, found, out))
                λ running.
                  ensure_le-step P c.minimum_voting_lock amount Error.vote_amount_too_low _ s
                    (bad _)
                    λ enough.
                      checked_add-step P c.max_block_number order.create_block order.keep_block_num
                        Error.block_number_overflow _ s (λ over. bad _ (order, found, inr over))
                        λ fits.
                          checked_sub-step P (order.create_block + order.keep_block_num)
                            s.block_number Error.block_number_overflow _ s
                            (λ less. absurd (omega (arith, less, running, started)))
                            λ _.
                              reply-step P (h.currency.reserve who amount s.ledger) _ s
                                (λ e r. bad _ (inr (who, sg, r)))
                                λ l locked.
                                  good who order l
                                    (record { signer = sg; found = found; started = started })
                                    running enough fits locked
