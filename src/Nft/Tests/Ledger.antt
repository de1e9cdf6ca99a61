-- ===== src/Nft/Tests/Ledger.antt =====
-- A ledger for tests: it behaves as the balances pallet is documented to, with a smallest balance of 1.
use nft101_rust.Prelude.{ℕ, ◌+◌, ◌-◌, ◌≡◌, refl, leb, if◌then◌else◌, min, arith}
use nft101_rust.Frame.{Currency, Reply, accepted, refused, only}

pub record Book : Type 0 where
  pub free : ℕ → ℕ
  pub reserved : ℕ → ℕ

abbrev pub lock : ℕ → ℕ → Book → Book
lock who v l = record {
  free = λ a. l.free a - only a who v;
  reserved = λ a. l.reserved a + only a who v;
}

abbrev pub unlock : ℕ → ℕ → Book → Book
unlock who v l = record {
  free = λ a. l.free a + only a who (min v (l.reserved a));
  reserved = λ a. l.reserved a - only a who (min v (l.reserved a));
}

abbrev pub move : ℕ → ℕ → ℕ → Book → Book
move from to v l = record {
  free = λ a. l.free a - only a from v + only a to v;
  reserved = l.reserved;
}

abbrev pub try_lock : ℕ → ℕ → Book → Reply Book
try_lock who v l = if leb v (l.free who) then accepted (lock who v l) else refused 1

abbrev pub try_move : ℕ → ℕ → ℕ → Book → Reply Book
try_move from to v l = if leb (v + 1) (l.free from) then accepted (move from to v l) else refused 2

abbrev free_of : ℕ → Book → ℕ
free_of a l = l.free a

abbrev reserved_of : ℕ → Book → ℕ
reserved_of a l = l.reserved a

pub lock_moves :
    (who v : ℕ) (l l' : Book) (a : ℕ)
    → try_lock who v l ≡ accepted l'
    → (free_of a l' + only a who v ≡ free_of a l)
      × (reserved_of a l' ≡ reserved_of a l + only a who v)
lock_moves who v l l' a e = ground arith

pub unlock_moves :
    (who v : ℕ) (l : Book) (a : ℕ)
    → (free_of a (unlock who v l) ≡ free_of a l + only a who (min v (reserved_of a l)))
      × (reserved_of a (unlock who v l) ≡ reserved_of a l - only a who (min v (reserved_of a l)))
unlock_moves who v l a = (refl, refl)

pub move_moves :
    (from to v : ℕ) (l l' : Book) (a : ℕ)
    → try_move from to v l ≡ accepted l'
    → (free_of a l' + only a from v ≡ free_of a l + only a to v)
      × (reserved_of a l' ≡ reserved_of a l)
move_moves from to v l l' a e = ground arith

abbrev pub book_currency : Currency Book
book_currency = record {
  free_balance = free_of;
  reserved_balance = reserved_of;
  reserve = try_lock;
  unreserve = unlock;
  transfer = try_move;
  reserve_moves = lock_moves;
  unreserve_moves = unlock_moves;
  transfer_moves = move_moves;
}
