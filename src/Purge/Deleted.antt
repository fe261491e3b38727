-- ===== src/Purge/Deleted.antt =====
-- What the loop over the batches takes from a table, from what one batch takes.
use jonoob_part_backend.Common.{
  ℕ, zero, suc, ◌+◌, ◌≡◌, refl, ◌⊎◌, inl, inr, Bool, true, false, not, ◌&&◌, List, [], ◌∷◌, map,
  filter, take, mem, length, ltb, In, In-filter, filter-In, ◌==◌, if◌then◌else◌, Bool-cases, Result,
  ok, err, arith,
}
use jonoob_part_backend.Purge.Tables.{
  Db, JobError, foreign_key_violation, other_failure, unsupported_key, comes_before, insert_by,
  order_by,
}
use jonoob_part_backend.Purge.Job.{
  State, Environment, Deletion, Outcome, ended, one_batch, proceed, drain,
}

-- The numbers tell the rows apart, as a primary key does.
abbrev pub IsKeyedBy : {R : Type 0} → (R → ℕ) → List R → Type 0
IsKeyedBy f xs = (a b : _) → In a xs → In b xs → f a ≡ f b → a ≡ b

In-take : {A : Type 0} (n : ℕ) (xs : List A) (a : A) → In a (take n xs) → In a xs
In-take zero xs a i = absurd i
In-take (suc n) [] a i = absurd i
In-take (suc n) (x ∷ xs) a (inl e) = inl e
In-take (suc n) (x ∷ xs) a (inr i) = inr (In-take n xs a i)

In-insert_by :
    {R : Type 0} (key : R → ℕ × ℕ) (r : R) (xs : List R) (a : R)
    → In a (insert_by key r xs)
    → (a ≡ r) ⊎ In a xs
unfolding insert_by
In-insert_by key r [] a i = i
In-insert_by key r (x ∷ xs) a i = elim (Bool-cases (comes_before (key r) (key x))) [
  | inl t ↦ rw t at i
  | inr t ↦ elim (rw t at i) [
    | inl e ↦ inr (inl e)
    | inr j ↦ elim (In-insert_by key r xs a j) [ inl e ↦ inl e | inr k ↦ inr (inr k) ]
  ]
]

In-order_by :
    {R : Type 0} (key : R → ℕ × ℕ) (xs : List R) (a : R) → In a (order_by key xs) → In a xs
unfolding order_by
In-order_by key [] a i = i
In-order_by key (x ∷ xs) a i = elim (In-insert_by key x (order_by key xs) a i) [
  | inl e ↦ inl e
  | inr j ↦ inr (In-order_by key xs a j)
]

mem-map :
    {R : Type 0} (f : R → ℕ) (j : ℕ) (xs : List R)
    → mem j (map f xs) ≡ true
    → (a : R) × In a xs × (j ≡ f a)
mem-map f j [] e = cc
mem-map f j (x ∷ xs) e = elim (Bool-cases (j == f x)) [
  | inl t ↦ (x, inl refl, ground arith)
  | inr t ↦ let (a, i, s) = mem-map f j xs (rw t at e) in (a, inr i, s)
]

-- The row that was picked for a number.
pub picked-In :
    {R : Type 0} (key : R → ℕ × ℕ) (f : R → ℕ) (p : R → Bool) (n j : ℕ) (xs : List R)
    → mem j (map f (take n (order_by key (filter p xs)))) ≡ true
    → (a : R) × In a xs × (p a ≡ true) × (j ≡ f a)
picked-In key f p n j xs e =
    let (a, i, s) = mem-map f j (take n (order_by key (filter p xs))) e in
    let (there, t) =
      In-filter p xs a
        (In-order_by key (filter p xs) a (In-take n (order_by key (filter p xs)) a i)) in
    (a, there, t, s)

pub IsKeyedBy-filter :
    {R : Type 0} (f : R → ℕ) (p : R → Bool) (xs : List R)
    → IsKeyedBy f xs
    → IsKeyedBy f (filter p xs)
IsKeyedBy-filter f p xs h = λ a b i j e. h a b (In-filter p xs a i).0 (In-filter p xs b j).0 e

pub and-left : (a b : Bool) → (a && b) ≡ true → a ≡ true
and-left true b e = refl
and-left false b e = cc

-- A row stays, or the batch may delete it.
pub deleted_or_stays :
    {R : Type 0} (p : R → Bool) (xs : List R) (r : R)
    → In r xs
    → In r (filter (λ x. not (p x)) xs) ⊎ (p r ≡ true)
deleted_or_stays p xs r i = elim (Bool-cases (p r)) [
  | inl t ↦ inr t
  | inr t ↦ inl (filter-In (λ x. not (p x)) xs r i (rw t refl))
]

-- What a batch does under an invariant of the database: every row stays, or fulfils `P` at that time.
abbrev pub Takes :
    {R : Type 0} → (Db → Type 0) → (Db → List R) → (ℕ → R → Type 0) → ℕ → Db → Db → Type 0
Takes Inv rows P t db db' = Inv db' × ((r : _) → In r (rows db) → In r (rows db') ⊎ P t r)

module _ {R : Type 0} (env : Environment) (Inv : Db → Type 0) (rows : Db → List R)
    (P : ℕ → R → Type 0) (delete : Deletion)
    (step : (t : ℕ) (db : Db) → Inv db → Takes Inv rows P t db (delete (env.turn t) db).1) where
  -- The same of the loop: at one of its times.
  abbrev pub TakesAll : Db → Db → Type 0
  TakesAll db db' = Inv db' × ((r : R) → In r (rows db) → In r (rows db') ⊎ ((t : ℕ) × P t r))

  pub drain-TakesAll :
      (left size total : ℕ) (s : State)
      → Inv s.db
      → TakesAll s.db (drain env left size delete total s).1.db
  unfolding drain
  drain-TakesAll zero size total s h = (h, λ r i. inl i)
  drain-TakesAll (suc left) size total s h =
      let (r, s') = one_batch env delete s in
      let (h', once) = step s.batch s.db h in
      go (delete (env.turn s.batch) s.db).0 (h', λ r i. widen s.batch r (once r i))
        λ total'. drain-TakesAll left size total' s' h'
    where
      s'' : State
      s'' = (one_batch env delete s).1

      widen : (t : ℕ) (r : R) → In r (rows s''.db) ⊎ P t r → In r (rows s''.db) ⊎ ((t : ℕ) × P t r)
      widen t r (inl i) = inl i
      widen t r (inr p) = inr (t, p)

      both : (o : Outcome) → TakesAll s.db s''.db → TakesAll s''.db o.1.db → TakesAll s.db o.1.db
      both o (k, f) (k', g) = (k', λ r i. elim (f r i) [ inl j ↦ g r j | inr q ↦ inr q ])

      at_end : (e : JobError) → TakesAll s.db s''.db → TakesAll s.db (ended e total s'').1.db
      at_end foreign_key_violation k = k
      at_end (other_failure n) k = k
      at_end unsupported_key k = k

      split :
          (b : Bool) (n : ℕ)
          → TakesAll s.db s''.db
          → ((total' : ℕ) → TakesAll s''.db (drain env left size delete total' s'').1.db)
          → TakesAll s.db (if b then (ok n, s'') else drain env left size delete n s'').1.db
      split true n k next = k
      split false n k next = both (drain env left size delete n s'') k (next n)

      go :
          (r : Result JobError (List ℕ))
          → TakesAll s.db s''.db
          → ((total' : ℕ) → TakesAll s''.db (drain env left size delete total' s'').1.db)
          → TakesAll s.db
              (proceed r size total s'' λ total'. drain env left size delete total' s'').1.db
      go (err e) k next = at_end e k
      go (ok ids) k next = split (ltb (length ids) size) (total + length ids) k next
