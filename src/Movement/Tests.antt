-- ===== src/Movement/Tests.antt =====
-- Runs of the repository of movements.
use jonoob_part_backend.Common.{
  ℕ, zero, suc, ◌+◌, ◌*◌, ◌/◌, ◌%◌, ◌==◌, ◌<◌, if◌then◌else◌, ◌≡◌, ap, ◌∙◌, refl, true, false, some,
  List, [], ◌∷◌, ok, err, arith,
}
use jonoob_part_backend.Movement.Payloads.{Item, IsReadBack}
use jonoob_part_backend.Movement.Repository.{
  Movement, Db, idempotency_conflict, Outside, inserted, record_movement, delete_movement,
}
use jonoob_part_backend.Movement.Replay.{Replays, record-Replays}

abbrev empty : Db
empty = record { movements = []; movement_items = []; next_id = 1 }

abbrev item : ℕ → ℕ → Item
item s q = record { stock_id = s; quantity = q }

-- The stock is an odd number behind as many zero bits as the quantity.
unfoldable write : ℕ → ℕ → ℕ
write zero s = 2 * s + 1
write (suc q) s = 2 * write q s

abbrev one_more : Item → Item
one_more i = item i.stock_id (suc i.quantity)

unfoldable read : ℕ → ℕ → Item
read zero t = item 0 0
read (suc f) t = let rest = read f (t / 2) in if t % 2 == 0 then one_more rest else item (t / 2) 0

read_even : (f t : ℕ) → read (suc f) (2 * t) ≡ one_more (read f t)
unfolding read
read_even f t =
    let even : ((2 * t) % 2 == 0) ≡ true = ground arith in
    let half : (2 * t) / 2 ≡ t = omega arith in rw (even, half) refl

read_odd : (f s : ℕ) → read (suc f) (2 * s + 1) ≡ item s 0
unfolding read
read_odd f s =
    let odd : ((2 * s + 1) % 2 == 0) ≡ false = ground arith in
    let half : (2 * s + 1) / 2 ≡ s = omega arith in rw (odd, half) refl

read-write : (q s f : ℕ) → q < f → read f (write q s) ≡ item s q
unfolding write
read-write zero s zero h = grind arith
read-write zero s (suc f) h = read_odd f s
read-write (suc q) s zero h = grind arith
read-write (suc q) s (suc f) h =
    read_even f (write q s) ∙ ap one_more (read-write q s f (omega arith))

write_bound : (q s : ℕ) → q < write q s
unfolding write
write_bound zero s = omega arith
write_bound (suc q) s = let h = write_bound q s in omega arith

abbrev parse : ℕ → Item
parse t = read t t

write-IsReadBack : IsReadBack write parse
write-IsReadBack q s = read-write q s (write q s) (write_bound q s)

abbrev outside : Outside
outside = record { stringify = write; breaks_check = λ m. false; breaks_insert = λ m db. false }

abbrev movement : List Item → Movement
movement is = record {
  idempotency_key = some 7;
  direction = 1;
  source = 2;
  reference_id = 5;
  items = is;
}

abbrev first : Movement
first = movement (item 3 10 ∷ item 4 20 ∷ [])

abbrev again : Movement
again = movement (item 4 20 ∷ item 3 10 ∷ [])

recorded : record_movement outside first empty ≡ ok ((1, true), inserted first empty)
unfolding record_movement write
recorded = refl

recorded_again :
    record_movement outside again (inserted first empty) ≡ ok ((1, false), inserted first empty)
unfolding record_movement write
recorded_again = refl

conflicting :
    record_movement outside (movement (item 3 10 ∷ [])) (inserted first empty)
    ≡ err idempotency_conflict
unfolding record_movement write
conflicting = refl

deleted :
    delete_movement 1 (inserted first empty)
    ≡ record { movements = []; movement_items = []; next_id = 2 }
unfolding delete_movement
deleted = refl

record-Replays_example : Replays outside again (inserted first empty) 1 1 2 first.items
unfolding write
record-Replays_example =
    record-Replays outside parse write-IsReadBack first again empty (inserted first empty) 1 7 tt
      refl refl recorded refl refl
