-- ===== src/Payment/Allocations.antt =====
-- How a settlement shares the amount between the wallet and the gateway.
use jonoob_part_backend.Common.{
  Number, natural, other, max_safe_integer, ℕ, ◌+◌, ◌≤◌, ◌≡◌, refl, ◌&&◌, false, not, Option, arith,
  ltb, leb, Result, ok, err,
}
use jonoob_part_backend.Payment.Monad.{
  Db, World, PaymentError, bad_request, unprocessable, and_then,
}
use jonoob_part_backend.Payment.Services.{Services}
use jonoob_part_backend.Payment.Selection.{
  PaymentMethodSelection, use_wallet, use_gateway, use_both, WalletUsage, Allocation, wallet_only,
  gateway_only, split, below, wanted,
}
use jonoob_part_backend.Payment.Settle.{answer, share, allocate_with, allocate}
use jonoob_part_backend.Payment.Logic.{Post, raise_if-then}

-- The parts are those of the selection, they add up to the amount, and both parts of a shared
-- payment are positive.
abbrev pub Covers : PaymentMethodSelection → ℕ → Allocation → Type 0
Covers use_wallet amount (wallet_only a) = a ≡ amount
Covers (use_gateway key) amount (gateway_only k a) = (k ≡ key) × (a ≡ amount)
Covers (use_both key usage) amount (split k w g) = (k ≡ key) × (1 ≤ w) × (1 ≤ g) × (w + g ≡ amount)
Covers _ _ _ = ⊥

-- What the allocation takes from the wallet.
abbrev pub wallet_part : Allocation → ℕ
wallet_part (wallet_only a) = a
wallet_part (gateway_only key a) = 0
wallet_part (split key w g) = w

-- The wallet's answer is a balance that covers this part, where there is one.
abbrev pub IsAfforded : Result PaymentError Number → ℕ → Type 0
IsAfforded (ok (natural n)) part = part ≤ n
IsAfforded _ part = part ≡ 0

module _ {W X : Type 0} (sv : Services W X) where
  share-Covers :
      (key amount : ℕ) (usage : WalletUsage) (available want : Number) (w : World W X)
      → Post
          (λ a db.
            Covers (use_both key usage) amount a
            × IsAfforded (ok available) (wallet_part a)
            × (db ≡ w.db))
          (λ db. db ≡ w.db)
          (share sv key amount available want w)
  unfolding share
  share-Covers key amount usage available other w = refl
  share-Covers key amount usage available (natural a) w =
      let Q = λ (b : Allocation) (db : Db W).
        Covers (use_both key usage) amount b
        × IsAfforded (ok available) (wallet_part b)
        × (db ≡ w.db) in
      raise_if-then sv w.db Q (not (leb 1 a && leb a max_safe_integer)) bad_request _ w refl
        λ positive. raise_if-then sv w.db Q (leb amount a) bad_request _ w refl λ less.
          raise_if-then sv w.db Q (below available a) unprocessable _ w refl λ enough. (
            (refl, ground (arith, positive), ground (arith, less), ground (arith, less)),
            afforded available enough,
            refl,
          )
    where
      afforded : (n : Number) → below n a ≡ false → IsAfforded (ok n) a
      afforded (natural n) h = ground (arith, h)
      afforded other h = cc

  -- In every world, `allocate` leaves the database as it was. An allocation that it answers has the
  -- parts that the selection names, which add up to the amount and are both positive where there are
  -- two, and it takes from the wallet no more than the balance that the wallet reports.
  pub allocate-Covers :
      (customer : Option ℕ) (amount : ℕ) (selection : PaymentMethodSelection) (w : World W X)
      → Post
          (λ a db.
            Covers selection amount a
            × IsAfforded (sv.available customer w.db.side) (wallet_part a)
            × (db ≡ w.db))
          (λ db. db ≡ w.db)
          (allocate sv customer amount selection w)
  unfolding allocate allocate_with
  allocate-Covers customer amount (use_gateway key) w =
      ((refl, refl), no_wallet (sv.available customer w.db.side), refl)
    where
      no_wallet : (r : Result PaymentError Number) → IsAfforded r 0
      no_wallet (ok (natural n)) = ground arith
      no_wallet (ok other) = refl
      no_wallet (err e) = refl
  allocate-Covers customer amount use_wallet w = go (sv.available customer w.db.side)
    where
      from_balance :
          (n : Number)
          → Post
              (λ a db. Covers use_wallet amount a × IsAfforded (ok n) (wallet_part a) × (db ≡ w.db))
              (λ db. db ≡ w.db)
              (allocate_with sv amount n use_wallet w)
      from_balance other = refl
      from_balance (natural n) =
          raise_if-then sv w.db
            (λ a db.
              Covers use_wallet amount a
              × IsAfforded (ok (natural n)) (wallet_part a)
              × (db ≡ w.db))
            (ltb n amount) unprocessable _ w refl λ h. (refl, ground (arith, h), refl)

      go :
          (r : Result PaymentError Number)
          → Post
              (λ a db. Covers use_wallet amount a × IsAfforded r (wallet_part a) × (db ≡ w.db))
              (λ db. db ≡ w.db)
              (and_then (answer w r) (λ n. allocate_with sv amount n use_wallet))
      go (ok n) = from_balance n
      go (err e) = refl
  allocate-Covers customer amount (use_both key usage) w = go (sv.available customer w.db.side)
    where
      go :
          (r : Result PaymentError Number)
          → Post
              (λ a db.
                Covers (use_both key usage) amount a × IsAfforded r (wallet_part a) × (db ≡ w.db))
              (λ db. db ≡ w.db)
              (and_then (answer w r) (λ n. allocate_with sv amount n (use_both key usage)))
      go (ok n) = share-Covers key amount usage n (wanted usage n amount) w
      go (err e) = refl
