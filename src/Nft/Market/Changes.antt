-- ===== src/Nft/Market/Changes.antt =====
-- The calls of pallets/nft/src/lib.rs about items, and the listing, as changes of the items.
use nft101_rust.Prelude.{
  ℕ, ◌≤◌, ◌≡◌, ◌≢◌, refl, ap, sym, ◌∙◌, true, is_some, Option, Option-cases, none, some, inl, inr,
  [], map, update, update_self, update_ne, arith,
}
use mathlib.Core.Option.{some-injective}
use nft101_rust.Frame.{AccountId, Host}
use nft101_rust.Nft.Types.{State, Nft, Order, Config}
use nft101_rust.Nft.States.{created, removed, transferred, listed}
use nft101_rust.Nft.WellFormed.{WellFormed, GoodOrder}
use nft101_rust.Nft.Market.{
  Item, held, on_sale, Change, stays, mints, burns, gives, lists, auction, Refines, best_of,
  pledge_of,
}
use nft101_rust.Nft.Market.Views.{view-held, view-absent, view-on_sale, view_other}

pub along : {now : ℕ} {i i' j j' : Item} → i' ≡ i → j' ≡ j → Change now i j → Change now i' j'
along e f k = rw (e, f) k

module _ {O L F N : Type 0} (h : Host O L F N) (c : Config F) (s : State L)
    (w : WellFormed c s) where
  -- What is known of the item of an open order.
  one_order :
      (o : ℕ) (order order' : Order)
      → s.orders o ≡ some order
      → s.orders o ≡ some order'
      → order'.nft_id ≡ order.nft_id
  one_order o order order' e e' = ap (λ (x : Order). x.nft_id) (some-injective _ _ (sym e' ∙ e))

  -- The end of an auction.
  pub closes :
      (t : State L) (o : ℕ) (order : Order) (owner : AccountId)
      → s.orders o ≡ some order
      → t.nfts ≡ s.nfts
      → t.nft_account order.nft_id ≡ owner
      → ((m : ℕ) → m ≢ order.nft_id → t.nft_account m ≡ s.nft_account m)
      → t.nft_order ≡ update s.nft_order order.nft_id none
      → ((j : ℕ)
          → j ≢ o
          → (t.orders j ≡ s.orders j) × (t.bids j ≡ s.bids j) × (t.votes j ≡ s.votes j))
      → Change s.block_number (on_sale (auction order (s.bids o) (s.votes o))) (held owner)
      → Refines s t
  closes t o order owner found e1 owned e2 e3 rest change =
      let n = order.nft_id in
      let g : GoodOrder c s o order = w.order_good o order found in
      let at : (m : ℕ) → t.nft_order m ≡ update s.nft_order n none m =
        λ m. ap (λ (f : ℕ → Option ℕ). f m) e3 in
      (
        n,
        along (view-on_sale s n o order g.exists g.listed_as found)
            (view-held t n (rw e1 g.exists) (at n ∙ update_self s.nft_order n none) ∙ ap held owned)
            change,
        λ m ne.
            view_other c s t o n m w (λ x e. one_order o order x found e)
              (ap (λ (f : ℕ → Option Nft). f m) e1) (e2 m ne)
              (at m ∙ update_ne s.nft_order n none m ne) rest ne,
      )

  -- A change of an auction.
  pub adjusts :
      (t : State L) (o : ℕ) (order : Order)
      → s.orders o ≡ some order
      → t.nfts ≡ s.nfts
      → t.nft_account ≡ s.nft_account
      → t.nft_order ≡ s.nft_order
      → t.orders ≡ s.orders
      → ((j : ℕ) → j ≢ o → (t.bids j ≡ s.bids j) × (t.votes j ≡ s.votes j))
      → Change s.block_number
          (on_sale (auction order (s.bids o) (s.votes o)))
          (on_sale (auction order (t.bids o) (t.votes o)))
      → Refines s t
  adjusts t o order found e1 e2 e3 e4 rest change =
      let n = order.nft_id in
      let g : GoodOrder c s o order = w.order_good o order found in
      (
        n,
        along (view-on_sale s n o order g.exists g.listed_as found)
            (view-on_sale t n o order (rw e1 g.exists) (rw e3 g.listed_as) (rw e4 found)) change,
        λ m ne.
            view_other c s t o n m w (λ x e. one_order o order x found e)
              (ap (λ (f : ℕ → Option Nft). f m) e1) (ap (λ (f : ℕ → AccountId). f m) e2)
              (ap (λ (f : ℕ → Option ℕ). f m) e3)
              (λ j nj. (ap (λ (f : ℕ → Option Order). f j) e4, (rest j nj).0, (rest j nj).1)) ne,
      )

  -- A call without an effect.
  pub unchanged : Refines s s
  unchanged = (0, stays, λ m ne. refl)

  fresh_order : (n : ℕ) (order : Order) → s.orders s.next_order_id ≡ some order → order.nft_id ≡ n
  fresh_order n order e = absurd (omega (arith, (w.order_good s.next_order_id order e).fresh))

  fresh_bid : s.bids s.next_order_id ≡ none
  fresh_bid = elim (Option-cases (s.bids s.next_order_id)) [
    | inl e ↦ e
    | inr (bid, e) ↦
        let q = w.bid_good s.next_order_id bid e in
        absurd (omega (arith, (w.order_good s.next_order_id q.0 q.1).fresh))
  ]

  fresh_item : s.nfts s.next_nft_id ≡ none
  fresh_item = elim (Option-cases (s.nfts s.next_nft_id)) [
    | inl e ↦ e
    | inr (nft, e) ↦ absurd (omega (arith, w.item_fresh s.next_nft_id (ap is_some e)))
  ]

  fresh_unlisted : s.nft_order s.next_nft_id ≡ none
  fresh_unlisted = elim (Option-cases (s.nft_order s.next_nft_id)) [
    | inl e ↦ e
    | inr (o, e) ↦
        let f = w.item_listed s.next_nft_id o e in
        let g = w.order_good o f.0 f.1 in cc (g.exists, f.2, fresh_item)
  ]

  pub created-Refines : (who : AccountId) (nft : Nft) → Refines s (created who nft s)
  created-Refines who nft =
      let n = s.next_nft_id in
      let t : State L = created who nft s in
      (
        n,
        along (view-absent s n fresh_item)
            (view-held t n (ap is_some (update_self s.nfts n (some nft))) fresh_unlisted
              ∙ ap held (update_self s.nft_account n who))
            (mints who),
        λ m ne.
            view_other c s t s.next_order_id n m w (fresh_order n)
              (update_ne s.nfts n (some nft) m ne) (update_ne s.nft_account n who m ne) refl
              (λ j nj. (refl, refl, refl)) ne,
      )

  pub removed-Refines :
      (who n : ℕ) (nft : Nft)
      → s.nfts n ≡ some nft
      → s.nft_account n ≡ who
      → s.nft_order n ≡ none
      → Refines s (removed c.default_account who n s)
  removed-Refines who n nft found owner free =
      let t : State L = removed c.default_account who n s in
      (
        n,
        along (view-held s n (ap is_some found) free ∙ ap held owner)
            (view-absent t n (update_self s.nfts n none)) (burns who),
        λ m ne.
            view_other c s t s.next_order_id n m w (fresh_order n) (update_ne s.nfts n none m ne)
              (update_ne s.nft_account n c.default_account m ne) refl (λ j nj. (refl, refl, refl))
              ne,
      )

  pub transferred-Refines :
      (who target n : ℕ) (nft : Nft)
      → s.nfts n ≡ some nft
      → s.nft_account n ≡ who
      → s.nft_order n ≡ none
      → Refines s (transferred who target n s)
  transferred-Refines who target n nft found owner free =
      let t : State L = transferred who target n s in
      (
        n,
        along (view-held s n (ap is_some found) free ∙ ap held owner)
            (view-held t n (ap is_some found) free ∙ ap held (update_self s.nft_account n target))
            (gives who target),
        λ m ne.
            view_other c s t s.next_order_id n m w (fresh_order n) refl
              (update_ne s.nft_account n target m ne) refl (λ j nj. (refl, refl, refl)) ne,
      )

  pub listed-Refines :
      (order : Order)
      → order.order_id ≡ s.next_order_id
      → order.create_block ≡ s.block_number
      → order.start_price ≤ order.end_price
      → is_some (s.nfts order.nft_id) ≡ true
      → s.nft_account order.nft_id ≡ order.owner
      → s.nft_order order.nft_id ≡ none
      → Refines s (listed order s)
  listed-Refines order id now le exists owner free =
      let n = order.nft_id in
      let o = order.order_id in
      let t : State L = listed order s in
      let empty : s.bids o ≡ none = rw id fresh_bid in
      (
        n,
        along (view-held s n exists free ∙ ap held owner)
            (view-on_sale t n o order exists (update_self s.nft_order n (some o))
              (update_self s.orders o (some order)))
            (lists (auction order (s.bids o) (t.votes o)) le (omega (arith, now)) (ap best_of empty)
              (ap (map pledge_of) (update_self s.votes o []))),
        λ m ne.
            view_other c s t o n m w (rw id (fresh_order n)) refl refl
              (update_ne s.nft_order n (some o) m ne)
              (λ j nj. (update_ne s.orders o (some order) j nj, refl, update_ne s.votes o [] j nj))
              ne,
      )
