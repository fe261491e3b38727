-- ===== src/Outbox/Leases.antt =====
-- Two claims: a lease keeps its message, and the later ones of its key, from the next claim.
use jonoob_part_backend.Common.{
  ℕ, zero, suc, ◌+◌, ◌<◌, ◌≡◌, refl, ap, sym, subst, ◌∙◌, inl, inr, ◌≢◌, Bool, true, false, not,
  ◌&&◌, some, List, [], ◌∷◌, map, arith, ◌==◌, if◌then◌else◌, filter, take, any, mem, All, In,
  Bool-cases, In-All, In-filter,
}
use jonoob_part_backend.Outbox.Tables.{MessageRow, update_where}
use jonoob_part_backend.Outbox.Relay.{unleased}
use jonoob_part_backend.Outbox.Claim.{
  Table, ClaimRequest, is_older, is_busy, is_held, claimable, look, in_seqs, add_key, leased,
  leased_past, due, at_last_look, claim_look, claim,
}
use jonoob_part_backend.Outbox.Look.{
  IsAscending, filter-IsAscending, look-batch-In, give_back-above,
}

take-In : {A : Type 0} (n : ℕ) (xs : List A) (a : A) → In a (take n xs) → In a xs
take-In zero xs a i = absurd i
take-In (suc n) [] a i = i
take-In (suc n) (x ∷ xs) a (inl h) = inl h
take-In (suc n) (x ∷ xs) a (inr h) = inr (take-In n xs a h)

mem-map-seq :
    (s : ℕ) (t : Table)
    → mem s (map (λ r. r.seq) t) ≡ true
    → (r : MessageRow) × In r t × (s ≡ r.seq)
mem-map-seq s [] m = absurd (cc m)
mem-map-seq s (x ∷ xs) m = elim (Bool-cases (s == x.seq)) [
  | inl e ↦ (x, inl refl, ground (arith, e))
  | inr e ↦ let (r, i, q) = mem-map-seq s xs (rw e at m) in (r, inr i, q)
]

any-In : {A : Type 0} (p : A → Bool) (xs : List A) (a : A) → In a xs → p a ≡ true → any p xs ≡ true
any-In p [] a i h = absurd i
any-In p (x ∷ xs) a (inl e) h = let t : p x ≡ true = rw (← e) h in rw t
any-In p (x ∷ xs) a (inr i) h = ground (arith, any-In p xs a i h)

seq_unique :
    (t : Table) (a b : MessageRow) → IsAscending t → In a t → In b t → a.seq ≡ b.seq → a ≡ b
seq_unique [] a b asc ia ib e = absurd ia
seq_unique (x ∷ xs) a b asc (inl h) (inl k) e = h ∙ sym k
seq_unique (x ∷ xs) a b asc (inl h) (inr k) e =
    absurd
      (omega (arith, In-All (λ q. x.seq < q.seq) xs b asc.0 k, ap (λ (q : MessageRow). q.seq) h))
seq_unique (x ∷ xs) a b asc (inr h) (inl k) e =
    absurd
      (omega (arith, In-All (λ q. x.seq < q.seq) xs a asc.0 h, ap (λ (q : MessageRow). q.seq) k))
seq_unique (x ∷ xs) a b asc (inr h) (inr k) e = seq_unique xs a b asc.1 h k e

claimable-excludes :
    (now : ℕ) (t : Table) (r b : MessageRow) (u : ℕ)
    → In b t
    → b.lease_until ≡ some u
    → now < u
    → claimable now t r ≡ true
    → (r ≢ b) × (is_older r b ≡ false)
unfolding claimable
claimable-excludes now t r b u i e lt c =
    let past : leased_past now b ≡ true = rw e (ground arith) in
    (
      λ same. ground (arith, past, c, ap (leased_past now) same),
      elim (Bool-cases (is_older r b)) [
        | inl o ↦
            ground
              (arith, c, o, past, any-In (λ older. is_older r older && is_busy now older) t b i)
        | inr o ↦ o
      ],
    )

-- A row that a claim keeps is not among those that go back.
kept-not_given_back :
    (owner : ℕ) (table : Table) (blocked : List ℕ) (rows : Table) (r : MessageRow)
    → IsAscending rows
    → In r (look owner table blocked rows).batch
    → mem r.seq (look owner table blocked rows).give_back ≡ false
unfolding look
kept-not_given_back owner table blocked [] r asc i = absurd i
kept-not_given_back owner table blocked (x ∷ xs) r asc i =
    elim (Bool-cases (is_held owner table blocked x)) [
      | inl e ↦
          let more = add_key x.key blocked in
          let i' : In r (look owner table more xs).batch = rw e at i in
          let above =
            In-All (λ q. x.seq < q.seq) xs r asc.0 (look-batch-In owner table more xs r i') in
          rw e (ground (arith, above, kept-not_given_back owner table more xs r asc.1 i'))
      | inr e ↦ rw e (elim (rw e at i) [
        | inl h ↦ elim (Bool-cases (mem r.seq (look owner table blocked xs).give_back)) [
          | inl m ↦ absurd (
              omega (
                arith,
                give_back-above owner table blocked xs x.seq r.seq asc.0 m,
                ap (λ (q : MessageRow). q.seq) h,
              ))
          | inr m ↦ m
        ]
        | inr h ↦ kept-not_given_back owner table blocked xs r asc.1 h
      ])
    ]

In-map : (f : MessageRow → MessageRow) (t : Table) (a : MessageRow) → In a t → In (f a) (map f t)
In-map f [] a i = i
In-map f (x ∷ xs) a (inl e) = inl (ap f e)
In-map f (x ∷ xs) a (inr i) = inr (In-map f xs a i)

map-In :
    (f : MessageRow → MessageRow) (t : Table) (a : MessageRow)
    → In a (map f t)
    → (x : MessageRow) × In x t × (a ≡ f x)
map-In f [] a i = absurd i
map-In f (x ∷ xs) a (inl e) = (x, inl refl, e)
map-In f (x ∷ xs) a (inr i) = let (y, j, e) = map-In f xs a i in (y, inr j, e)

update-above :
    (n : ℕ) (p : MessageRow → Bool) (f : MessageRow → MessageRow) (t : Table)
    → ((x : MessageRow) → (f x).seq ≡ x.seq)
    → All (λ q. n < q.seq) t
    → All (λ q. n < q.seq) (update_where p f t)
update-above n p f [] h a = tt
update-above n p f (x ∷ xs) h a = elim (Bool-cases (p x)) [
  | inl e ↦ rw e (rw (h x) a.0, update-above n p f xs h a.1)
  | inr e ↦ rw e (a.0, update-above n p f xs h a.1)
]

-- An update that leaves `seq` alone keeps the rows in primary-key order.
pub update-IsAscending :
    (p : MessageRow → Bool) (f : MessageRow → MessageRow) (t : Table)
    → ((x : MessageRow) → (f x).seq ≡ x.seq)
    → IsAscending t
    → IsAscending (update_where p f t)
update-IsAscending p f [] h a = tt
update-IsAscending p f (x ∷ xs) h a = elim (Bool-cases (p x)) [
  | inl e ↦ rw e (rw (h x) (update-above x.seq p f xs h a.0), update-IsAscending p f xs h a.1)
  | inr e ↦ rw e (update-above x.seq p f xs h a.0, update-IsAscending p f xs h a.1)
]

and_left : (a b : Bool) → (a && b) ≡ true → a ≡ true
and_left a b h = ground arith

-- A claim keeps the table in primary-key order.
pub claim-IsAscending :
    (req : ClaimRequest) (locked : ℕ → Bool) (t : Table)
    → IsAscending t
    → IsAscending (claim req locked (λ x. x) t).1
unfolding claim
claim-IsAscending req locked t asc =
    update-IsAscending (in_seqs (claim_look req locked (λ x. x) t).give_back) unleased
      (at_last_look req locked (λ x. x) t) (λ x. refl)
      (update-IsAscending (in_seqs (due req locked t)) (leased req) t (λ x. refl) asc)

-- The lease of a row that a claim keeps, in the table that it leaves.
kept-leased :
    (req : ClaimRequest) (locked : ℕ → Bool) (t : Table) (b : MessageRow)
    → IsAscending t
    → In b (claim_look req locked (λ x. x) t).batch
    → In b (claim req locked (λ x. x) t).1 × (b.lease_until ≡ some (req.now + req.lease_ms))
unfolding claim
kept-leased req locked t b asc i =
    let seqs = due req locked t in
    let seen = at_last_look req locked (λ x. x) t in
    let asc' = update-IsAscending (in_seqs seqs) (leased req) t (λ x. refl) asc in
    let rows = filter (in_seqs seqs) seen in
    let gb = (look req.owner seen [] rows).give_back in
    let (ib, claimed) =
      In-filter (in_seqs seqs) seen b (look-batch-In req.owner seen [] rows b i) in
    let kept =
      kept-not_given_back req.owner seen [] rows b (filter-IsAscending (in_seqs seqs) seen asc')
        i in
    let (x, ix, e) = map-In (λ x. if in_seqs seqs x then leased req x else x) t b ib in
    let f = λ (y : MessageRow). if in_seqs gb y then unleased y else y in
    let at_end : In (f b) (map f seen) = In-map f seen b ib in
    let same : f b ≡ b = rw kept in
    (
      subst (λ y. In y (map f seen)) same at_end,
      elim (Bool-cases (in_seqs seqs x)) [
        | inl c ↦ ap (λ (y : MessageRow). y.lease_until) (rw c at e)
        | inr c ↦ absurd (cc (ap (in_seqs seqs) (rw c at e), claimed, c))
      ],
    )

claimed-claimable :
    (req : ClaimRequest) (locked : ℕ → Bool) (t : Table) (r : MessageRow)
    → IsAscending t
    → In r t
    → mem r.seq (due req locked t) ≡ true
    → claimable req.now t r ≡ true
unfolding due
claimed-claimable req locked t r asc i m =
    let test = λ (x : MessageRow). claimable req.now t x && not (locked x.seq) in
    let (x, ix, e) = mem-map-seq r.seq (take req.limit (filter test t)) m in
    let (jx, c) = In-filter test t x (take-In req.limit (filter test t) x ix) in
    let same = seq_unique t r x asc i jx e in
    rw same (and_left (claimable req.now t x) (not (locked x.seq)) c)

-- Two claims in turn, with nothing committed in between and the second before the first one's
-- leases end: whatever rows are locked, the second claim takes no row that the first one kept, and
-- no row that is younger than such a row and has its key. The table is in primary-key order.
pub claims_exclude :
    (req req' : ClaimRequest) (locked locked' : ℕ → Bool) (t : Table) (b r : MessageRow)
    → IsAscending t
    → req'.now < req.now + req.lease_ms
    → In b (claim_look req locked (λ x. x) t).batch
    → In r (claim req locked (λ x. x) t).1
    → mem r.seq (due req' locked' (claim req locked (λ x. x) t).1) ≡ true
    → (r ≢ b) × (is_older r b ≡ false)
claims_exclude req req' locked locked' t b r asc lt ib ir m =
    let t' = (claim req locked (λ x. x) t).1 in
    let (at_end, lease) = kept-leased req locked t b asc ib in
    let c = claimed-claimable req' locked' t' r (claim-IsAscending req locked t asc) ir m in
    claimable-excludes req'.now t' r b (req.now + req.lease_ms) at_end lease lt c
