-- ===== src/Outbox/Fencing.antt =====
-- The fence of the relay's writes.
use jonoob_part_backend.Common.{
  ℕ, ◌≡◌, ◌≢◌, refl, Bool, false, List, [], ◌∷◌, filter, All, Option, none, some, eq_some, true,
  arith, Bool-cases, inl, inr,
}
use jonoob_part_backend.Outbox.Tables.{MessageRow, Store, delete_where, update_where}
use jonoob_part_backend.Outbox.Relay.{
  leased_by, mark_published, reschedule, dead_letter, RescheduleUpdate, DeadLetterUpdate,
  rescheduled,
}

-- Every row with this id has no lease, or a lease of someone else.
abbrev pub NotHeld : ℕ → ℕ → List MessageRow → Type 0
NotHeld id owner = All λ row. row.id ≡ id → row.lease_owner ≢ some owner

eq_some-eq : (o : Option ℕ) (a : ℕ) → eq_some o (some a) ≡ true → o ≡ some a
eq_some-eq none a e = cc e
eq_some-eq (some b) a e = ground (arith, e)

not_leased :
    (id owner : ℕ) (row : MessageRow)
    → (row.id ≡ id → row.lease_owner ≢ some owner)
    → leased_by id owner row ≡ false
not_leased id owner row h = elim (Bool-cases (leased_by id owner row)) [
  | inr e ↦ e
  | inl e ↦ absurd (h (ground (arith, e)) (ground (arith, e, eq_some-eq row.lease_owner owner)))
]

not_leased-All :
    (id owner : ℕ) (rows : List MessageRow)
    → NotHeld id owner rows
    → All (λ row. leased_by id owner row ≡ false) rows
not_leased-All id owner [] h = tt
not_leased-All id owner (row ∷ rows) (h, hs) =
    (not_leased id owner row h, not_leased-All id owner rows hs)

filter-none :
    {A : Type 0} (p : A → Bool) (xs : List A) → All (λ x. p x ≡ false) xs → filter p xs ≡ []
filter-none p [] h = refl
filter-none p (x ∷ xs) h = rw h.0 (filter-none p xs h.1)

pub delete_where-none :
    {A : Type 0} (p : A → Bool) (xs : List A) → All (λ x. p x ≡ false) xs → delete_where p xs ≡ xs
delete_where-none p [] h = refl
delete_where-none p (x ∷ xs) h = rw (h.0, delete_where-none p xs h.1)

pub update_where-none :
    {A : Type 0} (p : A → Bool) (f : A → A) (xs : List A)
    → All (λ x. p x ≡ false) xs
    → update_where p f xs ≡ xs
update_where-none p f [] h = refl
update_where-none p f (x ∷ xs) h = rw (h.0, update_where-none p f xs h.1)

-- Where every row with a message's id has no lease or the lease of another owner,
-- a relay publishes, reschedules and buries nothing under it: each of the three calls answers `false` and leaves the store as it was.
pub lost_lease-writes_nothing :
    (id owner : ℕ) (r : RescheduleUpdate) (d : DeadLetterUpdate) (s : Store)
    → NotHeld id owner s.messages
    → (mark_published id owner s ≡ (false, s))
      × (reschedule id owner r s ≡ (false, s))
      × (dead_letter id owner d s ≡ (false, s))
unfolding mark_published reschedule dead_letter
lost_lease-writes_nothing id owner r d s h =
    let p = leased_by id owner in
    let fenced = not_leased-All id owner s.messages h in
    let none_found = filter-none p s.messages fenced in
    (
      rw (none_found, delete_where-none p s.messages fenced),
      rw (none_found, update_where-none p (rescheduled r) s.messages fenced),
      rw none_found,
    )
