-- ===== src/Nft/Market/Views.antt =====
-- The views of the items of pallets/nft/src/lib.rs before and after a call.
use nft101_rust.Prelude.{
  ℕ, ◌≡◌, ◌≢◌, refl, subst, ap, sym, ◌∙◌, true, is_some, Option, Option-cases, none, some, inl, inr,
  List, [], ◌∷◌, ◌++◌, map,
}
use nft101_rust.Frame.{AccountId}
use nft101_rust.Nft.Types.{State, Order, Bid, Vote, Config}
use nft101_rust.Nft.WellFormed.{WellFormed}
use nft101_rust.Nft.Market.{
  absent, held, on_sale, auction, item_of, auction_of, auction_at, view, pledge_of,
}

module _ {L : Type 0} where
  pub view-held :
      (s : State L) (n : ℕ)
      → is_some (s.nfts n) ≡ true
      → s.nft_order n ≡ none
      → view s n ≡ held (s.nft_account n)
  unfolding view
  view-held s n e q = elim (Option-cases (s.nfts n)) [ inl x ↦ cc | inr (nft, x) ↦ rw (x, q) refl ]

  pub view-absent : (s : State L) (n : ℕ) → s.nfts n ≡ none → view s n ≡ absent
  unfolding view
  view-absent s n e = rw e refl

  pub view-on_sale :
      (s : State L) (n o : ℕ) (order : Order)
      → is_some (s.nfts n) ≡ true
      → s.nft_order n ≡ some o
      → s.orders o ≡ some order
      → view s n ≡ on_sale (auction order (s.bids o) (s.votes o))
  unfolding view
  view-on_sale s n o order e q f = elim (Option-cases (s.nfts n)) [
    | inl x ↦ cc
    | inr (nft, x) ↦ rw (x, q, f) refl
  ]

  -- A change at one order leaves the views of the items but the one that it is about.
  pub view_other :
      {F : Type 0} (c : Config F) (s t : State L) (o n m : ℕ)
      → WellFormed c s
      → ((order : Order) → s.orders o ≡ some order → order.nft_id ≡ n)
      → t.nfts m ≡ s.nfts m
      → t.nft_account m ≡ s.nft_account m
      → t.nft_order m ≡ s.nft_order m
      → ((j : ℕ)
          → j ≢ o
          → (t.orders j ≡ s.orders j) × (t.bids j ≡ s.bids j) × (t.votes j ≡ s.votes j))
      → m ≢ n
      → view t m ≡ view s m
  unfolding view
  view_other c s t o n m w of e1 e2 e3 rest ne =
      let same : auction_at t (t.nft_order m) ≡ auction_at s (s.nft_order m) =
        elim (Option-cases (s.nft_order m)) [
          | inl x ↦ rw (e3, x) refl
          | inr (j, x) ↦
              let found = w.item_listed m j x in
              let other : j ≢ o = λ p. ne (
                sym found.2
                ∙ of found.0 (subst (λ (x : ℕ). s.orders x ≡ some found.0) p found.1)) in
              let r = rest j other in rw (e3, x) (λ i. auction_of (r.0 i) (r.1 i) (r.2 i))
        ] in
      λ i. item_of (e1 i) (e2 i) (same i)

map-append :
    (vs : List Vote) (v : Vote)
    → map pledge_of (vs ++ v ∷ []) ≡ map pledge_of vs ++ pledge_of v ∷ []
map-append [] v = refl
map-append (x ∷ vs) v = ap (λ (ys : List (AccountId × ℕ)). pledge_of x ∷ ys) (map-append vs v)

pub auction-append :
    (order : Order) (b : Option Bid) (vs : List Vote) (v : Vote)
    → auction order b (vs ++ v ∷ [])
      ≡ record (auction order b vs) { pledges = map pledge_of vs ++ pledge_of v ∷ [] }
auction-append order b vs v =
    ap (λ (ys : List (AccountId × ℕ)). record (auction order b vs) { pledges = ys })
      (map-append vs v)
