-- ===== src/Frame.antt =====
-- What the pallet takes from FRAME, from the balances pallet and from substrate-fixed, none of
-- which is in the repository: records of operations, with the documented behaviour as laws.
use nft101_rust.Prelude.{
  ℕ, ◌+◌, ◌-◌, ◌*◌, ◌^◌, ◌≤◌, ◌<◌, min, ◌≡◌, Bool, Option, none, some, ◌==◌, ltb, if◌then◌else◌,
}

-- `T::AccountId`: accounts are only compared, so a key is read as a number.
abbrev pub AccountId : Type 0
AccountId = ℕ

-- An error that comes from outside the pallet, which it passes on: `BadOrigin` or an error of the
-- balances pallet.
abbrev pub ForeignError : Type 0
ForeignError = ℕ

pub data Reply (A : Type 0) : Type 0 where
  accepted : A → Reply A
  refused : ForeignError → Reply A

-- An amount that concerns one account only.
abbrev pub only : AccountId → AccountId → ℕ → ℕ
only a who amount = if a == who then amount else 0

-- `T::Currency : ReservableCurrency`, over the ledger that it keeps. `transfer` is the one that
-- keeps the sender alive (`ExistenceRequirement::KeepAlive`). A refused call leaves the ledger.
pub record Currency (L : Type 0) : Type 0 where
  pub free_balance : AccountId → L → ℕ
  pub reserved_balance : AccountId → L → ℕ
  pub reserve : AccountId → ℕ → L → Reply L
  pub unreserve : AccountId → ℕ → L → L
  pub transfer : AccountId → AccountId → ℕ → L → Reply L
  pub reserve_moves :
      (who amount : ℕ) (l l' : L) (a : AccountId)
      → reserve who amount l ≡ accepted l'
      → (free_balance a l' + only a who amount ≡ free_balance a l)
        × (reserved_balance a l' ≡ reserved_balance a l + only a who amount)
  pub unreserve_moves :
      (who amount : ℕ) (l : L) (a : AccountId)
      → (free_balance a (unreserve who amount l)
          ≡ free_balance a l + only a who (min amount (reserved_balance a l)))
        × (reserved_balance a (unreserve who amount l)
            ≡ reserved_balance a l - only a who (min amount (reserved_balance a l)))
  pub transfer_moves :
      (from to amount : ℕ) (l l' : L) (a : AccountId)
      → transfer from to amount l ≡ accepted l'
      → (free_balance a l' + only a from amount ≡ free_balance a l + only a to amount)
        × (reserved_balance a l' ≡ reserved_balance a l)

-- `substrate_fixed::types::U64F64`, with 64 bits before the point and 64 after it, in every build. `raw` is the number
-- times `scale`; `none` is a panic, which a division by zero always is. What fits in 128 bits is computed, rounded down;
-- what does not is a panic or is wrapped around, and so is never more than the exact result.
pub record Fixed (F N : Type 0) : Type 0 where
  pub raw : N → ℕ
  pub scale : ℕ
  pub scale_eq : scale ≡ 2 ^ 64
  pub scale_positive : 0 < scale
  pub from_float : F → Option N
  pub from_int : ℕ → Option N
  pub add : N → N → Option N
  pub mul : N → N → Option N
  pub div : N → N → Option N
  pub less : N → N → Bool
  pub floor : N → Option ℕ
  pub mul-lt : (x y z : N) → mul x y ≡ some z → raw z < scale * scale
  pub from_int-le : (n : ℕ) (x : N) → from_int n ≡ some x → raw x ≤ n * scale
  pub raw-mul : (x y z : N) → mul x y ≡ some z → raw z * scale ≤ raw x * raw y
  pub raw-div : (x y z : N) → div x y ≡ some z → raw z * raw y ≤ raw x * scale
  pub div_zero : (x y : N) → raw y ≡ 0 → div x y ≡ none
  pub less-raw : (x y : N) → less x y ≡ ltb (raw x) (raw y)
  pub raw-floor : (x : N) (n : ℕ) → floor x ≡ some n → n * scale ≤ raw x
  pub floor-lower : (x : N) (n : ℕ) → floor x ≡ some n → raw x < (n + 1) * scale
  pub from_int_fits : (n : ℕ) → n < scale → (x : N) × (from_int n ≡ some x) × (raw x ≡ n * scale)
  pub add_fits :
      (x y : N)
      → raw x + raw y < scale * scale
      → (z : N) × (add x y ≡ some z) × (raw z ≡ raw x + raw y)
  pub mul_fits :
      (x y : N)
      → raw x * raw y < scale * scale * scale
      → (z : N) × (mul x y ≡ some z) × (raw x * raw y < (raw z + 1) * scale)
  pub div_fits :
      (x y : N)
      → raw x < scale * raw y
      → (z : N) × (div x y ≡ some z) × (raw x * scale < (raw z + 1) * raw y)
  pub floor_fits : (x : N) → (n : ℕ) × (floor x ≡ some n)

-- A build with overflow checks: a result that does not fit is a panic.
pub record Checked {F N : Type 0} (f : Fixed F N) : Type 0 where
  pub raw-from_int : (n : ℕ) (x : N) → f.from_int n ≡ some x → f.raw x ≡ n * f.scale
  pub raw-add : (x y z : N) → f.add x y ≡ some z → f.raw z ≡ f.raw x + f.raw y
  pub mul-lower : (x y z : N) → f.mul x y ≡ some z → f.raw x * f.raw y < (f.raw z + 1) * f.scale
  pub div-lower : (x y z : N) → f.div x y ≡ some z → f.raw x * f.scale < (f.raw z + 1) * f.raw y

-- All of it together. The conversions are `saturated_into`, which never grows a value and keeps
-- one that fits.
pub record Host (O L F N : Type 0) : Type 0 where
  pub ensure_signed : O → Reply AccountId
  pub currency : Currency L
  pub fixed : Fixed F N
  pub block_to_u128 : ℕ → ℕ
  pub balance_to_u128 : ℕ → ℕ
  pub u128_to_balance : ℕ → ℕ
  pub block_to_u128-le : (n : ℕ) → block_to_u128 n ≤ n
  pub balance_to_u128-le : (n : ℕ) → balance_to_u128 n ≤ n
  pub block_to_u128-eq : (n : ℕ) → n < 2 ^ 128 → block_to_u128 n ≡ n
  pub balance_to_u128-eq : (n : ℕ) → n < 2 ^ 128 → balance_to_u128 n ≡ n
  pub u128_to_balance-le : (n : ℕ) → u128_to_balance n ≤ n
