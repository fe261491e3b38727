-- ===== src/Outbox/Look.antt =====
-- The loop of `claim`'s last look: what goes back and what stays.
use jonoob_part_backend.Common.{
  ℕ, ◌<◌, ◌≡◌, ap, ◌∙◌, inl, inr, Bool, true, false, ◌&&◌, ◌||◌, Option, none, some, List, [], ◌∷◌,
  arith, eq_some, is_some, filter, mem, All, In, Bool-cases, In-All, filter-All,
}
use jonoob_part_backend.Outbox.Tables.{MessageRow}
use jonoob_part_backend.Outbox.Claim.{Table, is_held, look, behind_other, add_key, blocks}

-- Rows stand in primary-key order, and no two have one `seq`.
abbrev pub IsAscending : Table → Type 0
IsAscending [] = Unit
IsAscending (r ∷ rs) = All (λ q. r.seq < q.seq) rs × IsAscending rs

pub filter-IsAscending :
    (p : MessageRow → Bool) (t : Table) → IsAscending t → IsAscending (filter p t)
filter-IsAscending p [] h = tt
filter-IsAscending p (r ∷ rs) h = elim (Bool-cases (p r)) [
  | inl e ↦ rw e (filter-All (λ q. r.seq < q.seq) p rs h.0, filter-IsAscending p rs h.1)
  | inr e ↦ rw e (filter-IsAscending p rs h.1)
]

blocks-add_key :
    (k j : Option ℕ) (blocked : List ℕ)
    → blocks k blocked ≡ true
    → blocks k (add_key j blocked) ≡ true
blocks-add_key none j blocked b = cc
blocks-add_key (some k) none blocked b = b
blocks-add_key (some k) (some j) blocked b = ground arith

eq_some-blocks :
    (j k : Option ℕ) (blocked : List ℕ) → eq_some j k ≡ true → blocks k (add_key j blocked) ≡ true
eq_some-blocks none k blocked e = cc
eq_some-blocks (some j) none blocked e = cc
eq_some-blocks (some j) (some k) blocked e = ground arith

blocked-is_held :
    (owner : ℕ) (table : Table) (blocked : List ℕ) (r : MessageRow)
    → blocks r.key blocked ≡ true
    → is_held owner table blocked r ≡ true
blocked-is_held owner table blocked r b = ground arith

not_head : (x p : ℕ) (l : List ℕ) → x < p → mem p (x ∷ l) ≡ true → mem p l ≡ true
not_head x p l lt m = ground arith

not_held-not_behind :
    (keyed : Bool) (behind : Option Bool) (blocked b : Bool)
    → keyed ≡ true
    → behind ≡ some b
    → (keyed && (elim behind [ some c ↦ c | none ↦ false ] || blocked)) ≡ false
    → b ≡ false
not_held-not_behind keyed behind blocked b k e h = ground arith

module _ (owner : ℕ) (table : Table) where
  -- The rows that go back, and those that stay, are among those looked at.
  pub look-batch-In :
      (blocked : List ℕ) (rows : Table) (r : MessageRow)
      → In r (look owner table blocked rows).batch
      → In r rows
  unfolding look
  look-batch-In blocked [] r i = i
  look-batch-In blocked (x ∷ xs) r i = elim (Bool-cases (is_held owner table blocked x)) [
    | inl e ↦ inr (look-batch-In (add_key x.key blocked) xs r (rw e at i))
    | inr e ↦ elim (rw e at i) [ inl h ↦ inl h | inr h ↦ inr (look-batch-In blocked xs r h) ]
  ]

  pub give_back-above :
      (blocked : List ℕ) (rows : Table) (n s : ℕ)
      → All (λ q. n < q.seq) rows
      → mem s (look owner table blocked rows).give_back ≡ true
      → n < s
  unfolding look
  give_back-above blocked [] n s h m = cc
  give_back-above blocked (x ∷ xs) n s h m = elim (Bool-cases (is_held owner table blocked x)) [
    | inl e ↦ ground (arith, rw e at m, h.0, give_back-above (add_key x.key blocked) xs n s h.1)
    | inr e ↦ give_back-above blocked xs n s h.1 (rw e at m)
  ]

  -- Once a key is blocked, no row with that key is kept.
  blocked-not-kept :
      (blocked : List ℕ) (rows : Table) (r : MessageRow)
      → blocks r.key blocked ≡ true
      → In r (look owner table blocked rows).batch
      → ⊥
  unfolding look
  blocked-not-kept blocked [] r b i = i
  blocked-not-kept blocked (x ∷ xs) r b i = elim (Bool-cases (is_held owner table blocked x)) [
    | inl e ↦
        blocked-not-kept (add_key x.key blocked) xs r (blocks-add_key r.key x.key blocked b)
          (rw e at i)
    | inr e ↦ elim (rw e at i) [
      | inl h ↦
          ground
            (arith, blocked-is_held owner table blocked r b, ap (is_held owner table blocked) h)
      | inr h ↦ blocked-not-kept blocked xs r b h
    ]
  ]

  -- A row that is given back blocks every later row with its key.
  pub given_back-not-kept :
      (blocked : List ℕ) (rows : Table) (p r : MessageRow)
      → IsAscending rows
      → In p rows
      → In r (look owner table blocked rows).batch
      → p.seq < r.seq
      → eq_some p.key r.key ≡ true
      → mem p.seq (look owner table blocked rows).give_back ≡ true
      → ⊥
  unfolding look
  given_back-not-kept blocked [] p r asc ip ir lt same m = ip
  given_back-not-kept blocked (x ∷ xs) p r asc ip ir lt same m =
      elim (Bool-cases (is_held owner table blocked x)) [
        | inl e ↦
            let ir' : In r (look owner table (add_key x.key blocked) xs).batch = rw e at ir in
            elim ip [
              | inl h ↦
                  blocked-not-kept (add_key x.key blocked) xs r
                    (eq_some-blocks x.key r.key blocked (rw h at same)) ir'
              | inr h ↦ given_back-not-kept (add_key x.key blocked) xs p r asc.1 h ir' lt same (
                  not_head x.seq p.seq (look owner table (add_key x.key blocked) xs).give_back
                    (In-All (λ q. x.seq < q.seq) xs p asc.0 h) (rw e at m))
            ]
        | inr e ↦
            let m' : mem p.seq (look owner table blocked xs).give_back ≡ true = rw e at m in
            elim (rw e at ir) [
              | inl hr ↦ elim ip [
                | inl hp ↦
                    omega
                      (arith, ap (λ (q : MessageRow). q.seq) hp, ap (λ (q : MessageRow). q.seq) hr)
                | inr hp ↦ omega (
                  arith,
                  In-All (λ q. x.seq < q.seq) xs p asc.0 hp,
                  ap (λ (q : MessageRow). q.seq) hr,
                )
              ]
              | inr hr ↦ elim ip [
                | inl hp ↦ omega (
                  arith,
                  give_back-above blocked xs x.seq p.seq asc.0 m',
                  ap (λ (q : MessageRow). q.seq) hp,
                )
                | inr hp ↦ given_back-not-kept blocked xs p r asc.1 hp hr lt same m'
              ]
            ]
      ]

  -- A kept row passed the test of the loop.
  pub kept-not_behind :
      (blocked : List ℕ) (rows : Table) (r : MessageRow)
      → In r (look owner table blocked rows).batch
      → (b : Bool) → is_some r.key ≡ true
      → behind_other owner table r ≡ some b
      → b ≡ false
  unfolding look
  kept-not_behind blocked [] r i b k e = absurd i
  kept-not_behind blocked (x ∷ xs) r i b k f = elim (Bool-cases (is_held owner table blocked x)) [
    | inl e ↦ kept-not_behind (add_key x.key blocked) xs r (rw e at i) b k f
    | inr e ↦ elim (rw e at i) [
      | inl h ↦
          not_held-not_behind (is_some r.key) (behind_other owner table r) (blocks r.key blocked) b
            k f (ap (is_held owner table blocked) h ∙ e)
      | inr h ↦ kept-not_behind blocked xs r h b k f
    ]
  ]

  -- What goes back was among the claimed numbers.
  pub give_back-claimed :
      (seqs blocked : List ℕ) (rows : Table) (s : ℕ)
      → All (λ q. mem q.seq seqs ≡ true) rows
      → mem s (look owner table blocked rows).give_back ≡ true
      → mem s seqs ≡ true
  unfolding look
  give_back-claimed seqs blocked [] s h m = cc
  give_back-claimed seqs blocked (x ∷ xs) s h m =
      elim (Bool-cases (is_held owner table blocked x)) [
        | inl e ↦
            ground (arith, rw e at m, h.0, give_back-claimed seqs (add_key x.key blocked) xs s h.1)
        | inr e ↦ give_back-claimed seqs blocked xs s h.1 (rw e at m)
      ]
