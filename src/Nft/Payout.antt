-- ===== src/Nft/Payout.antt =====
-- `Module::algorithm` of pallets/nft/src/lib.rs: the voters' shares of a completed sale. `none` is
-- a panic. The log messages are left out.
pub mod Rounds
pub mod Profit
pub mod Rate
pub mod Panics
pub mod Within
pub mod Returns
pub mod Complete
pub mod Reference
use nft101_rust.Prelude.{ℕ, Bool, true, false, Option, some, List, [], ◌∷◌, ◌++◌, if◌then◌else◌}
use nft101_rust.Prelude.Partial.{◌>>=◌}
use nft101_rust.Frame.{AccountId, Host, Reply, accepted, refused}
use nft101_rust.Nft.Types.{Order, Vote, Config}

-- The variables of the loop over the votes.
pub record Weights (N : Type 0) : Type 0 where
  pub is_fixed : Bool
  pub total : N
  pub weight_rate : N
  pub tt : N
  pub vote_res : List (Vote × N)

-- A transfer whose result is dropped by `let _ =`.
abbrev pub ignoring : {L : Type 0} → L → Reply L → L
ignoring l (accepted l') = l'
ignoring l (refused _) = l

module _ {O L F N : Type 0} (h : Host O L F N) where
  open h.fixed use {from_int, add, mul, div, less, floor}

  -- The weight of a vote before the exchange rate: its amount times its share of the auction's time.
  unfoldable pub vote_weight : N → N → Vote → Option N
  vote_weight day_block_num day vote = do
    amount ← from_int (h.balance_to_u128 vote.amount)
    keep_block_num ← from_int (h.block_to_u128 vote.keep_block_num)
    vote_day ← div keep_block_num day_block_num
    weighted ← mul amount vote_day
    div weighted day

  -- The exchange rate, which is frozen once the rate is fixed.
  unfoldable pub next_rate : N → Weights N → N → Option N
  next_rate stock w total =
      if w.is_fixed then some w.weight_rate else do grown ← add stock total; div stock grown

  -- One round of the loop.
  unfoldable pub weigh_vote : N → N → N → N → Vote → Weights N → Option (Weights N)
  weigh_vote fix_rate day_block_num day stock vote w = do
    pre_weight ← vote_weight day_block_num day vote
    total ← add w.total pre_weight
    weight_rate ← next_rate stock w total
    t ← mul pre_weight weight_rate
    sum ← add w.tt t
    share ← div t sum
    yield ← mul share stock
    year_rate ← div yield pre_weight
    some (record {
      is_fixed = if less year_rate fix_rate then true else w.is_fixed;
      total = total;
      weight_rate = weight_rate;
      tt = sum;
      vote_res = w.vote_res ++ (vote, t) ∷ [];
    })

  unfoldable pub weigh_votes : N → N → N → N → List Vote → Weights N → Option (Weights N)
  weigh_votes fix_rate day_block_num day stock [] w = some w
  weigh_votes fix_rate day_block_num day stock (v ∷ vs) w = do
    w' ← weigh_vote fix_rate day_block_num day stock v w
    weigh_votes fix_rate day_block_num day stock vs w'

  -- The amount that a vote of weight `t` earns.
  unfoldable pub share_of : N → N → N → Option ℕ
  share_of profit_amount tt t = do
    unit ← div profit_amount tt
    share ← mul unit t
    amount ← floor share
    some (h.u128_to_balance amount)

  -- The second loop: each vote is unlocked and paid by the seller.
  unfoldable pub pay_votes : AccountId → N → N → List (Vote × N) → L → Option L
  pay_votes seller profit_amount tt [] l = some l
  pay_votes seller profit_amount tt ((vote, t) ∷ rest) l = do
    amount ← share_of profit_amount tt t
    let unlocked = h.currency.unreserve vote.owner vote.amount l
    let paid = h.currency.transfer seller vote.owner amount unlocked
    pay_votes seller profit_amount tt rest (ignoring unlocked paid)

  -- What the loops start from.
  pub record Terms : Type 0 where
    pub fix_rate : N
    pub profit_rate : N
    pub day_block_num : N
    pub bid_price : N
    pub day : N
    pub stock : N

  unfoldable pub terms : Config F → Order → ℕ → Option Terms
  terms c order bid_price = do
    fix_rate ← h.fixed.from_float c.fix_rate
    profit_rate ← h.fixed.from_float c.profit_rate
    day_block_num ← from_int (h.block_to_u128 c.day_block_num)
    block_num ← from_int (h.block_to_u128 order.keep_block_num)
    price ← from_int (h.balance_to_u128 bid_price)
    day ← div block_num day_block_num
    profit ← mul price profit_rate
    per_day ← div profit day
    year ← from_int 365
    stock ← mul per_day year
    some (record {
      fix_rate = fix_rate;
      profit_rate = profit_rate;
      day_block_num = day_block_num;
      bid_price = price;
      day = day;
      stock = stock;
    })

  unfoldable pub no_weights : N → Weights N
  no_weights zero_num = record {
    is_fixed = false;
    total = zero_num;
    weight_rate = zero_num;
    tt = zero_num;
    vote_res = [];
  }

  -- `algorithm(order, bid_price, inputs)`
  unfoldable pub algorithm : Config F → Order → ℕ → List Vote → L → Option L
  algorithm c order bid_price [] l = some l
  algorithm c order bid_price (v ∷ vs) l = do
    p ← terms c order bid_price
    zero_num ← from_int 0
    w ← weigh_votes p.fix_rate p.day_block_num p.day p.stock (v ∷ vs) (no_weights zero_num)
    profit_amount ← mul p.profit_rate p.bid_price
    pay_votes order.owner profit_amount w.tt w.vote_res l
