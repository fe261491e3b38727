-- ===== src/Outbox/Deliveries.antt =====
-- A consumer records each message once.
use jonoob_part_backend.Common.{
  ℕ, ◌≡◌, refl, inl, inr, Bool, true, false, not, ◌&&◌, ◌||◌, List, [], ◌∷◌, ◌++◌, arith, ltb, ◌==◌,
  filter, any, length, Bool-cases,
}
use jonoob_part_backend.Outbox.Tables.{InboxRow, Store}
use jonoob_part_backend.Outbox.Inbox.{same_entry, has_inbox, record_inbox}

any-eq-length :
    (p : InboxRow → Bool) (rows : List InboxRow) → ltb 0 (length (filter p rows)) ≡ any p rows
any-eq-length p [] = refl
any-eq-length p (x ∷ xs) = elim (Bool-cases (p x)) [
  | inl e ↦ rw e (ground arith)
  | inr e ↦ rw e (any-eq-length p xs)
]

any-append :
    (p : InboxRow → Bool) (rows : List InboxRow) (r : InboxRow)
    → any p (rows ++ (r ∷ [])) ≡ (any p rows || p r)
any-append p [] r = ground arith
any-append p (x ∷ xs) r = ground (arith, any-append p xs r)

-- Recording a message for a consumer answers `true` exactly when it was not recorded yet; then it is
-- recorded, a second recording at any time answers `false` and changes nothing, and for every other
-- pair of consumer and message nothing changes.
pub record_inbox_once :
    (consumer message_id now later : ℕ) (s : Store)
    → let (is_new, s') = record_inbox consumer message_id now s in
      (is_new ≡ not (has_inbox consumer message_id s))
      × (has_inbox consumer message_id s' ≡ true)
      × (record_inbox consumer message_id later s' ≡ (false, s'))
      × ((c m : ℕ)
          → (c == consumer && m == message_id) ≡ false
          → has_inbox c m s' ≡ has_inbox c m s)
unfolding record_inbox has_inbox
record_inbox_once consumer message_id now later s =
    let p = same_entry consumer message_id in
    let r : InboxRow = record {
      consumer = consumer;
      message_id = message_id;
      processed_at = now;
    } in
    let self : p r ≡ true = ground arith in
    elim (Bool-cases (any p s.inbox)) [
      | inl e ↦ (
        rw (e, any-eq-length p s.inbox, e),
        rw (e, any-eq-length p s.inbox, e),
        rw (e, e),
        λ c m ne. rw e,
      )
      | inr e ↦ (
        rw (e, any-eq-length p s.inbox, e),
        rw (e, any-eq-length p (s.inbox ++ (r ∷ [])), any-append p s.inbox r, e, self),
        rw (e, any-append p s.inbox r, e, self),
        λ c m ne.
            let other : same_entry c m r ≡ false = ground (arith, ne) in
            rw
              (
                e,
                any-eq-length (same_entry c m) (s.inbox ++ (r ∷ [])),
                any-append (same_entry c m) s.inbox r,
                other,
                any-eq-length (same_entry c m) s.inbox,
              )
              (ground arith),
      )
    ]
