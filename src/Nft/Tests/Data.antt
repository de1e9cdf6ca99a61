-- ===== src/Nft/Tests/Data.antt =====
-- The host, the configuration and the states of the tests: item 0 of account 1 is listed as order 0,
-- account 2 bids for it, and account 3 votes.
use nft101_rust.Prelude.{
  ◌<◌, ◌≡◌, refl, ℕ, ◌-◌, ◌/◌, ◌^◌, ◌≤◌, none, some, [], ◌∷◌, ◌==◌, if◌then◌else◌, arith,
}
use nft101_rust.Frame.{Fixed, Host, Reply, accepted, refused, AccountId}
use nft101_rust.Nft.Types.{Config, State, Nft, Order, Bid, Vote, Event}
use nft101_rust.Nft.Guards.{new_order}
use nft101_rust.Nft.States.{created, listed, outbid, voted, logged, completed, released}
use nft101_rust.Nft.Dispatch.{genesis}
use nft101_rust.Nft.Tests.Ledger.{Book, book_currency, lock, unlock, move}
use nft101_rust.Nft.Tests.Numbers.{checked_numbers, wrapped_numbers}

-- Origin 0 is not signed.
abbrev pub sign : ℕ → Reply AccountId
sign o = if o == 0 then refused 0 else accepted o

abbrev same : ℕ → ℕ
same n = n

pub same-le : (n : ℕ) → same n ≤ n
same-le n = omega arith

pub same-eq : (n : ℕ) → n < 2 ^ 128 → same n ≡ n
same-eq n e = refl

abbrev pub host_with : Fixed ℕ ℕ → Host ℕ Book ℕ ℕ
host_with numbers = record {
  ensure_signed = sign;
  currency = book_currency;
  fixed = numbers;
  block_to_u128 = same;
  balance_to_u128 = same;
  u128_to_balance = same;
  block_to_u128-le = same-le;
  balance_to_u128-le = same-le;
  block_to_u128-eq = same-eq;
  balance_to_u128-eq = same-eq;
  u128_to_balance-le = same-le;
}

-- The host of a build with overflow checks, and that of one without.
abbrev pub host : Host ℕ Book ℕ ℕ
host = host_with checked_numbers

abbrev pub wrapped_host : Host ℕ Book ℕ ℕ
wrapped_host = host_with wrapped_numbers

-- Both rates are a fifth.
abbrev pub config : Config ℕ
config = record {
  min_keep_block_number = 1;
  max_keep_block_number = 1000;
  minimum_price = 1;
  minimum_voting_lock = 1;
  fix_rate = 2 ^ 64 / 5;
  profit_rate = 2 ^ 64 / 5;
  day_block_num = 100;
  max_nft_id = 1000;
  max_order_id = 1000;
  max_block_number = 2 ^ 32 - 1;
  default_account = 0;
}

-- Account 2 has just enough for its bid.
abbrev pub book : Book
book = record { free = λ a. if a == 2 then 120 else 1000; reserved = λ a. 0 }

abbrev pub start : State Book
start = genesis config 5 book

abbrev pub art : Nft
art = record { title = 116 ∷ []; url = 117 ∷ []; desc = 100 ∷ [] }

abbrev pub with_item : State Book
with_item = created 1 art start

abbrev pub order : Order
order = new_order 1 0 100 200 2 with_item

abbrev pub with_order : State Book
with_order = listed order with_item

abbrev pub first_bid : Bid
first_bid = record { order_id = 0; price = 120; owner = 2 }

abbrev pub with_bid : State Book
with_bid = outbid host 0 none first_bid (lock 2 120 book) with_order

abbrev pub first_vote : Vote
first_vote = record { order_id = 0; amount = 10; keep_block_num = 2; owner = 3 }

abbrev pub with_vote : State Book
with_vote = voted 0 first_vote (lock 3 10 with_bid.ledger) with_bid

-- A vote in the last block of the auction, and the state after its end.
abbrev pub last_block : State Book
last_block = record with_vote { block_number = 7 }

abbrev pub late_vote : Vote
late_vote = record { order_id = 0; amount = 10; keep_block_num = 0; owner = 4 }

abbrev pub with_late_vote : State Book
with_late_vote = voted 0 late_vote (lock 4 10 last_block.ledger) last_block

abbrev pub expired_late : State Book
expired_late = record with_late_vote { block_number = 8 }

-- The end of the auction with the bid and the first vote, and with the vote alone.
abbrev pub expired : State Book
expired = record with_vote { block_number = 8 }

abbrev pub voted_only : State Book
voted_only = voted 0 first_vote (lock 3 10 book) with_order

abbrev pub unsold : State Book
unsold = record voted_only { block_number = 8 }

-- A bid of an account that has more than it bids, the end of its auction with a vote, with a late vote, and after the
-- settlement.
abbrev pub other_bid : Bid
other_bid = record { order_id = 0; price = 120; owner = 5 }

abbrev pub with_other : State Book
with_other = outbid host 0 none other_bid (lock 5 120 book) with_order

abbrev pub other_vote : State Book
other_vote = voted 0 first_vote (lock 3 10 with_other.ledger) with_other

abbrev pub payable : State Book
payable = record other_vote { block_number = 8 }

abbrev pub other_last : State Book
other_last = record other_vote { block_number = 7 }

abbrev pub other_late : State Book
other_late = voted 0 late_vote (lock 4 10 other_last.ledger) other_last

abbrev pub payable_late : State Book
payable_late = record other_late { block_number = 8 }

abbrev pub paid_off : Book
paid_off = move 1 3 23 (unlock 3 10 (move 5 1 120 (unlock 5 120 payable.ledger)))

abbrev pub settled : State Book
settled =
    logged (Event.order_complete 5 0)
      (completed order 5 paid_off (released host 0 (some other_bid) payable))
