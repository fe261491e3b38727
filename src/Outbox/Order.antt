-- ===== src/Outbox/Order.antt =====
-- The order of a claim within a key.
use jonoob_part_backend.Common.{
  ℕ, ◌<◌, ◌≡◌, refl, inl, inr, Bool, true, false, not, ◌&&◌, Option, some, List, [], map, arith,
  if◌then◌else◌, eq_some, is_some, filter, get_last?, mem, In, Bool-cases, In-filter, filter-In,
  filter_sound, filter-map, get_last?-map-some, get_last?-In,
}
use jonoob_part_backend.Outbox.Tables.{MessageRow}
use jonoob_part_backend.Outbox.Relay.{unleased}
use jonoob_part_backend.Outbox.Claim.{
  Table, ClaimRequest, is_older, look, previous, behind_other, in_seqs, due, at_last_look,
  claim_look, claim,
}
use jonoob_part_backend.Outbox.Look.{
  IsAscending, filter-IsAscending, kept-not_behind, given_back-not-kept, give_back-claimed,
}

and_left : (a b : Bool) → (a && b) ≡ true → a ≡ true
and_left a b h = ground arith

keyed_of_same : (j k : Option ℕ) → eq_some j k ≡ true → is_some k ≡ true
keyed_of_same j k e = ground arith

leased_of_not_behind :
    (held : Option ℕ) (owner : ℕ) → not (eq_some held (some owner)) ≡ false → held ≡ some owner
leased_of_not_behind held owner h = ground arith

-- The kept row's older neighbour, before the rows are given back.
older-leased :
    (req : ClaimRequest) (seqs : List ℕ) (seen : Table) (r q : MessageRow)
    → let looked = look req.owner seen [] (filter (in_seqs seqs) seen) in
      IsAscending seen
      → In r looked.batch
      → previous seen r ≡ some q
      → (q.lease_owner ≡ some req.owner) × (mem q.seq looked.give_back ≡ false)
older-leased req seqs seen r q asc i e =
    let rows = filter (in_seqs seqs) seen in
    let (iq, old) = In-filter (is_older r) seen q (get_last?-In (filter (is_older r) seen) q e) in
    let same : eq_some q.key r.key ≡ true = and_left _ _ old in
    let lt : q.seq < r.seq = ground (arith, old) in
    let keyed : is_some r.key ≡ true = keyed_of_same q.key r.key same in
    let asc' = filter-IsAscending (in_seqs seqs) seen asc in
    let sound = filter_sound (in_seqs seqs) seen in
    (
      leased_of_not_behind q.lease_owner req.owner (
          kept-not_behind req.owner seen [] rows r i (not (eq_some q.lease_owner (some req.owner)))
            keyed (rw (e, behind_other))),
      elim (Bool-cases (mem q.seq (look req.owner seen [] rows).give_back)) [
        | inl m ↦ absurd (
            given_back-not-kept req.owner seen [] rows q r asc'
              (filter-In (in_seqs seqs) seen q iq
                (give_back-claimed req.owner seen seqs [] rows q.seq sound m))
              i lt same m)
        | inr m ↦ m
      ],
    )

is_older-unleased :
    (b : Bool) (r x : MessageRow) → is_older r (if b then unleased x else x) ≡ is_older r x
is_older-unleased true r x = refl
is_older-unleased false r x = refl

-- In every claim, whatever other transactions commit before the last look, and for every row that
-- the claim hands over: if an older row with its key stands in the table when the claim is done,
-- the newest such row is leased by the claiming owner. So no message overtakes, within its key, one
-- that another relay holds or that went back. The table at the last look is in primary-key order.
pub claim_keeps_key_order :
    (req : ClaimRequest) (locked : ℕ → Bool) (meanwhile : Table → Table) (table : Table)
    (r p : MessageRow)
    → IsAscending (at_last_look req locked meanwhile table)
    → In r (claim_look req locked meanwhile table).batch
    → previous (claim req locked meanwhile table).1 r ≡ some p
    → p.lease_owner ≡ some req.owner
unfolding claim
claim_keeps_key_order req locked meanwhile table r p asc i e =
    let seen = at_last_look req locked meanwhile table in
    let seqs = due req locked table in
    let seen = at_last_look req locked meanwhile table in
    let gb = (claim_look req locked meanwhile table).give_back in
    let f = λ (x : MessageRow). if in_seqs gb x then unleased x else x in
    let e' : get_last? (map f (filter (is_older r) seen)) ≡ some p =
      rw (← filter-map (is_older r) f seen (λ x. is_older-unleased (in_seqs gb x) r x)) e in
    let (q, h, eq) = get_last?-map-some f (filter (is_older r) seen) p e' in
    let (lease, kept) = older-leased req (due req locked table) seen r q asc i h in
    rw eq (rw kept lease)
