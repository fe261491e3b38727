-- ===== src/Idempotency/Fencing.antt =====
-- An attempt that has lost its lock.
use jonoob_part_backend.Common.{
  ℕ, ◌+◌, ◌≡◌, refl, ap, subst, inl, inr, true, false, ◌&&◌, Option, none, some, List, [], ◌∷◌, All,
  leb, ◌==◌, eq_some, Bool-cases, Result, ok, err, arith,
}
use jonoob_part_backend.Idempotency.Records.{
  Entry, Redis, set_key, alive, live, Millis, StoreError, to_whole_ms,
}
use jonoob_part_backend.Idempotency.Scripts.{
  owner_of, new_lock, acquire_on, if_owned, acquire_script, complete_script, release_script,
  extend_script,
}
use jonoob_part_backend.Idempotency.Methods.{
  Json, acquire, complete, release, extend, with_ms, answer, answer_reply,
}
use jonoob_part_backend.Idempotency.Calls.{
  Call, call_acquire, call_complete, call_release, call_extend, run, run_all,
}

-- The record of a key, expired or not, is not this owner's.
abbrev pub IsForeign : {Text : Type 0} → ℕ → ℕ → Redis Text → Type 0
IsForeign key owner redis = eq_some (owner_of (redis key)) (some owner) ≡ false

-- The call is no `acquire` of the key by this owner.
abbrev pub IsOther : {Payload : Type 0} → ℕ → ℕ → Call Payload → Type 0
IsOther key owner (call_acquire now k o fp ttl) = (k == key && o == owner) ≡ false
IsOther key owner _ = Unit

module _ {Payload Text : Type 0} (json : Json Payload Text) where
  -- What the live record shows.
  alive-IsForeign :
      (now owner : ℕ) (x : Option (Entry Text))
      → eq_some (owner_of x) (some owner) ≡ false
      → eq_some (owner_of (alive now x)) (some owner) ≡ false
  alive-IsForeign now owner none h = h
  alive-IsForeign now owner (some e) h = elim (Bool-cases (leb now e.expires_at)) [
    | inl t ↦ rw t h
    | inr t ↦ rw t refl
  ]

  if_owned-refuses :
      (key owner : ℕ) (f : Entry Text → Option (Entry Text)) (redis : Redis Text)
      (x : Option (Entry Text))
      → eq_some (owner_of x) (some owner) ≡ false
      → if_owned key owner f redis x ≡ (false, redis)
  if_owned-refuses key owner f redis none h = refl
  if_owned-refuses key owner f redis (some e) h = rw h refl

  set-IsForeign :
      (key owner k : ℕ) (x : Option (Entry Text)) (redis : Redis Text)
      → IsForeign key owner redis
      → ((key == k) ≡ true → eq_some (owner_of x) (some owner) ≡ false)
      → IsForeign key owner (set_key k x redis)
  set-IsForeign key owner k x redis h g = elim (Bool-cases (key == k)) [
    | inl t ↦ rw t (g t)
    | inr t ↦ rw t h
  ]

  -- A guarded write leaves no owner, or the owner that was there.
  if_owned-IsForeign :
      (key owner now k o : ℕ) (f : Entry Text → Option (Entry Text)) (redis : Redis Text)
      → ((e : Entry Text)
          → eq_some e.owner (some owner) ≡ false
          → eq_some (owner_of (f e)) (some owner) ≡ false)
      → IsForeign key owner redis
      → IsForeign key owner (if_owned k o f redis (live now k redis)).1
  if_owned-IsForeign key owner now k o f redis keeps h = go (live now k redis) λ t.
      let same : key ≡ k = ground (arith, t) in
      subst (λ j. eq_some (owner_of (live now j redis)) (some owner) ≡ false) same
        (alive-IsForeign now owner (redis key) h)
    where
      go :
          (x : Option (Entry Text))
          → ((key == k) ≡ true → eq_some (owner_of x) (some owner) ≡ false)
          → IsForeign key owner (if_owned k o f redis x).1
      go none g = h
      go (some e) g = elim (Bool-cases (eq_some e.owner (some o))) [
        | inl t ↦ rw t (set-IsForeign key owner k (f e) redis h λ t'. keeps e (g t'))
        | inr t ↦ rw t h
      ]

  with_ms-IsForeign :
      {A : Type 0} (key owner : ℕ) (redis : Redis Text) (r : Result StoreError ℕ)
      (f : ℕ → Result StoreError A × Redis Text)
      → IsForeign key owner redis
      → ((ms : ℕ) → IsForeign key owner (f ms).1)
      → IsForeign key owner (with_ms json redis r f).1
  with_ms-IsForeign key owner redis (ok ms) f h g = g ms
  with_ms-IsForeign key owner redis (err x) f h g = h

  acquire_on-IsForeign :
      (key owner now k fp o ms : ℕ) (redis : Redis Text) (x : Option (Entry Text))
      → (k == key && o == owner) ≡ false
      → IsForeign key owner redis
      → IsForeign key owner (acquire_on now k fp o ms redis x).1
  acquire_on-IsForeign key owner now k fp o ms redis none other h =
      set-IsForeign key owner k (some (new_lock fp o (now + ms))) redis h
        λ t. ground (arith, t, other)
  acquire_on-IsForeign key owner now k fp o ms redis (some e) other h = h

  run-IsForeign :
      (key owner : ℕ) (c : Call Payload) (redis : Redis Text)
      → IsForeign key owner redis
      → IsOther key owner c
      → IsForeign key owner (run json c redis)
  unfolding run acquire complete release extend acquire_script complete_script release_script
      extend_script
  run-IsForeign key owner (call_acquire now k o fp ttl) redis h other =
      with_ms-IsForeign key owner redis (to_whole_ms ttl)
        (λ ms. answer_reply json (acquire_script now k fp o ms redis)) h
        λ ms. acquire_on-IsForeign key owner now k fp o ms redis (live now k redis) other h
  run-IsForeign key owner (call_complete now k o response ttl) redis h other =
      with_ms-IsForeign key owner redis (to_whole_ms ttl)
        (λ ms. answer json (complete_script now k o (json.stringify response) ms redis)) h
        λ ms. if_owned-IsForeign key owner now k o _ redis (λ e g. refl) h
  run-IsForeign key owner (call_release now k o) redis h other =
      if_owned-IsForeign key owner now k o _ redis (λ e g. refl) h
  run-IsForeign key owner (call_extend now k o ttl) redis h other =
      with_ms-IsForeign key owner redis (to_whole_ms ttl)
        (λ ms. answer json (extend_script now k o ms redis)) h
        λ ms. if_owned-IsForeign key owner now k o _ redis (λ e g. g) h

  run_all-IsForeign :
      (key owner : ℕ) (cs : List (Call Payload)) (redis : Redis Text)
      → IsForeign key owner redis
      → All (IsOther key owner) cs
      → IsForeign key owner (run_all json cs redis)
  unfolding run_all
  run_all-IsForeign key owner [] redis h others = h
  run_all-IsForeign key owner (c ∷ cs) redis h (o, os) =
      run_all-IsForeign key owner cs (run json c redis) (run-IsForeign key owner c redis h o) os

  -- Once a key's record is not the owner's, and as long as the owner does not acquire the key again:
  -- after any calls and at any time its `complete`, `release` and `extend` answer `false` and change
  -- nothing. The durations are proper.
  pub lost_lock-writes_nothing :
      (key owner now ms : ℕ) (response : Payload) (ttl : Millis) (redis : Redis Text)
      (cs : List (Call Payload))
      → IsForeign key owner redis
      → All (IsOther key owner) cs
      → to_whole_ms ttl ≡ ok ms
      → let redis' = run_all json cs redis in
        (complete json now key owner response ttl redis' ≡ (ok false, redis'))
        × (release json now key owner redis' ≡ (ok false, redis'))
        × (extend json now key owner ttl redis' ≡ (ok false, redis'))
  unfolding complete release extend complete_script release_script extend_script
  lost_lock-writes_nothing key owner now ms response ttl redis cs h others proper =
      let redis' = run_all json cs redis in
      let seen =
        alive-IsForeign now owner (redis' key) (run_all-IsForeign key owner cs redis h others) in
      let refused : (f : Entry Text → Option (Entry Text))
          → if_owned key owner f redis' (live now key redis') ≡ (false, redis') =
        λ f. if_owned-refuses key owner f redis' (live now key redis') seen in
      (
        rw proper (ap (answer json) (refused _)),
        ap (answer json) (refused _),
        rw proper (ap (answer json) (refused _)),
      )
