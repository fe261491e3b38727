-- ===== src/Outbox/Inbox.antt =====
-- The inbox: `recordInbox`, `hasInbox`, `pruneInbox`.
use jonoob_part_backend.Common.{
  ℕ, Bool, true, false, ◌&&◌, [], ◌∷◌, ◌++◌, ltb, ◌==◌, if◌then◌else◌, length, filter, any,
}
use jonoob_part_backend.Outbox.Tables.{InboxRow, Store, delete_where}

abbrev pub same_entry : ℕ → ℕ → InboxRow → Bool
same_entry consumer message_id row = row.consumer == consumer && row.message_id == message_id

unfoldable pub has_inbox : ℕ → ℕ → Store → Bool
has_inbox consumer message_id s = ltb 0 (length (filter (same_entry consumer message_id) s.inbox))

-- `INSERT ... ON CONFLICT DO NOTHING RETURNING` on the unique pair.
unfoldable pub record_inbox : ℕ → ℕ → ℕ → Store → Bool × Store
record_inbox consumer message_id now s =
    if any (same_entry consumer message_id) s.inbox then (false, s) else (
      true,
      record s {
        inbox =
            s.inbox
            ++ (record { consumer = consumer; message_id = message_id; processed_at = now } ∷ []);
      },
    )

unfoldable pub prune_inbox : ℕ → Store → ℕ × Store
prune_inbox before s = (
  length (filter (λ row. ltb row.processed_at before) s.inbox),
  record s { inbox = delete_where (λ row. ltb row.processed_at before) s.inbox },
)
