-- ===== src/Outbox/Claim.antt =====
-- `DrizzleOutboxStore.claim` and `claimable`. A row that another transaction has locked is skipped:
-- `locked` says which. Under READ COMMITTED other transactions may commit between the lease and the
-- last look: `meanwhile` is what they do to the table.
use jonoob_part_backend.Common.{
  ℕ, ◌+◌, Bool, false, not, ◌&&◌, ◌||◌, Option, none, some, List, [], ◌∷◌, map, ltb, leb,
  if◌then◌else◌, eq_some, is_some, take, filter, any, get_last?, mem,
}
use jonoob_part_backend.Outbox.Tables.{MessageRow, Message, to_message, update_where}
use jonoob_part_backend.Outbox.Relay.{unleased}

pub record ClaimRequest : Type 0 where
  pub owner : ℕ
  pub now : ℕ
  pub lease_ms : ℕ
  pub limit : ℕ

abbrev pub Table : Type 0
Table = List MessageRow

-- `gt(leaseUntil, at)`, which is not true of NULL.
abbrev pub leased_past : ℕ → MessageRow → Bool
leased_past now row = elim row.lease_until [ none ↦ false | some u ↦ ltb now u ]

-- `p.key = row.key AND p.seq < row.seq`
abbrev pub is_older : MessageRow → MessageRow → Bool
is_older row p = eq_some p.key row.key && ltb p.seq row.seq

-- `gt(older.availableAt, at) OR gt(older.leaseUntil, at)`
abbrev pub is_busy : ℕ → MessageRow → Bool
is_busy now older = ltb now older.available_at || leased_past now older

unfoldable pub claimable : ℕ → Table → MessageRow → Bool
claimable now table row =
    leb row.available_at now
    && not (leased_past now row)
    && (not (is_some row.key) || not (any (λ older. is_older row older && is_busy now older) table))

-- The `seq`s of the due rows: in primary-key order, at most `limit`.
unfoldable pub due : ClaimRequest → (ℕ → Bool) → Table → List ℕ
unfolding claimable
due req locked table =
    map (λ r. r.seq)
      (take req.limit (filter (λ r. claimable req.now table r && not (locked r.seq)) table))

abbrev pub leased : ClaimRequest → MessageRow → MessageRow
leased req row = record row {
  lease_owner = some req.owner;
  lease_until = some (req.now + req.lease_ms);
}

abbrev pub in_seqs : List ℕ → MessageRow → Bool
in_seqs seqs row = mem row.seq seqs

-- The newest older row with the same key: `ORDER BY seq DESC LIMIT 1`.
abbrev pub previous : Table → MessageRow → Option MessageRow
previous table row = get_last? (filter (is_older row) table)

-- `lease_owner IS DISTINCT FROM owner`, and NULL where there is no such row.
abbrev pub behind_other : ℕ → Table → MessageRow → Option Bool
behind_other owner table row = elim (previous table row) [
  | none ↦ none
  | some p ↦ some (not (eq_some p.lease_owner (some owner)))
]

abbrev pub blocks : Option ℕ → List ℕ → Bool
blocks none blocked = false
blocks (some k) blocked = mem k blocked

abbrev pub add_key : Option ℕ → List ℕ → List ℕ
add_key none blocked = blocked
add_key (some k) blocked = k ∷ blocked

-- The test of the loop: the row goes back.
abbrev pub is_held : ℕ → Table → List ℕ → MessageRow → Bool
is_held owner table blocked row =
    is_some row.key
    && (elim (behind_other owner table row) [ some b ↦ b | none ↦ false ] || blocks row.key blocked)

pub record Looked : Type 0 where
  pub give_back : List ℕ
  pub batch : List MessageRow

-- The loop over the claimed rows, with the set of blocked keys.
unfoldable pub look : ℕ → Table → List ℕ → Table → Looked
look owner table blocked [] = record { give_back = []; batch = [] }
look owner table blocked (row ∷ rows) =
    let held = is_held owner table blocked row in
    let rest = look owner table (if held then add_key row.key blocked else blocked) rows in
    if held
    then record rest { give_back = row.seq ∷ rest.give_back }
    else record rest { batch = row ∷ rest.batch }

-- The table after the leases and what others committed meanwhile.
abbrev pub at_last_look : ClaimRequest → (ℕ → Bool) → (Table → Table) → Table → Table
at_last_look req locked meanwhile table =
    meanwhile (update_where (in_seqs (due req locked table)) (leased req) table)

-- The rows that the claim keeps, and those that it gives back.
abbrev pub claim_look : ClaimRequest → (ℕ → Bool) → (Table → Table) → Table → Looked
claim_look req locked meanwhile table =
    let seen = at_last_look req locked meanwhile table in
    look req.owner seen [] (filter (in_seqs (due req locked table)) seen)

-- The messages handed to the relay, and the table after the transaction. With no due row or none
-- given back the skipped statements would change nothing.
unfoldable pub claim : ClaimRequest → (ℕ → Bool) → (Table → Table) → Table → List Message × Table
unfolding look due to_message
claim req locked meanwhile table =
    let looked = claim_look req locked meanwhile table in
    (
      map to_message looked.batch,
      update_where (in_seqs looked.give_back) unleased (at_last_look req locked meanwhile table),
    )
