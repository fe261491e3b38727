-- ===== src/Idempotency/Locks.antt =====
-- A record and its lock over the calls of other attempts.
use jonoob_part_backend.Common.{
  ℕ, ◌≤◌, ◌≡◌, refl, ◌∙◌, subst, inl, inr, true, false, leb, ◌&&◌, Option, none, some, List, [],
  ◌∷◌, All, ◌==◌, eq_some, Bool-cases, Result, ok, err, arith,
}
use jonoob_part_backend.Idempotency.Records.{Entry, Redis, live, StoreError, to_whole_ms}
use jonoob_part_backend.Idempotency.Scripts.{
  acquire_on, if_owned, acquire_script, complete_script, release_script, extend_script,
}
use jonoob_part_backend.Idempotency.Methods.{
  Json, acquire, complete, release, extend, with_ms, answer, answer_reply,
}
use jonoob_part_backend.Idempotency.Calls.{
  Call, call_acquire, call_complete, call_release, call_extend, run, run_all,
}

-- The call comes no later than the time of the record, and does not come from its owner.
abbrev pub Spares : {Payload Text : Type 0} → ℕ → Entry Text → Call Payload → Type 0
Spares key e (call_acquire now k owner fp ttl) = now ≤ e.expires_at
Spares key e (call_complete now k owner response ttl) =
    (now ≤ e.expires_at) × ((k == key && eq_some e.owner (some owner)) ≡ false)
Spares key e (call_release now k owner) =
    (now ≤ e.expires_at) × ((k == key && eq_some e.owner (some owner)) ≡ false)
Spares key e (call_extend now k owner ttl) =
    (now ≤ e.expires_at) × ((k == key && eq_some e.owner (some owner)) ≡ false)

module _ {Payload Text : Type 0} (json : Json Payload Text) where
  pub live_of :
      (now key : ℕ) (redis : Redis Text) (e : Entry Text)
      → redis key ≡ some e
      → now ≤ e.expires_at
      → live now key redis ≡ some e
  live_of now key redis e at lt =
      let kept : leb now e.expires_at ≡ true = ground (arith, lt) in rw (at, kept) refl

  if_owned-other :
      (key k owner : ℕ) (f : Entry Text → Option (Entry Text)) (redis : Redis Text)
      (x : Option (Entry Text))
      → (key == k) ≡ false
      → (if_owned k owner f redis x).1 key ≡ redis key
  if_owned-other key k owner f redis none ne = refl
  if_owned-other key k owner f redis (some x) ne =
      elim (Bool-cases (eq_some x.owner (some owner))) [
        | inl t ↦ rw (t, ne) refl
        | inr t ↦ rw t refl
      ]

  acquire_on-other :
      (now key k fp owner ms : ℕ) (redis : Redis Text) (x : Option (Entry Text))
      → (key == k) ≡ false
      → (acquire_on now k fp owner ms redis x).1 key ≡ redis key
  acquire_on-other now key k fp owner ms redis none ne = rw ne refl
  acquire_on-other now key k fp owner ms redis (some x) ne = refl

  -- A write that the owner's check refuses, or under another key.
  owned_spares :
      (now key k owner : ℕ) (f : Entry Text → Option (Entry Text)) (redis : Redis Text)
      (e : Entry Text)
      → redis key ≡ some e
      → (now ≤ e.expires_at) × ((k == key && eq_some e.owner (some owner)) ≡ false)
      → (if_owned k owner f redis (live now k redis)).1 key ≡ some e
  owned_spares now key k owner f redis e at (lt, other) = elim (Bool-cases (k == key)) [
    | inr ne ↦ if_owned-other key k owner f redis (live now k redis) (ground (arith, ne)) ∙ at
    | inl t ↦
        let same : key ≡ k = ground (arith, t) in
        let foreign : eq_some e.owner (some owner) ≡ false = rw t at other in
        subst (λ j. (if_owned j owner f redis (live now j redis)).1 key ≡ some e) same
          (rw (live_of now key redis e at lt, foreign) at)
  ]

  acquire_spares :
      (now key k fp owner ms : ℕ) (redis : Redis Text) (e : Entry Text)
      → redis key ≡ some e
      → now ≤ e.expires_at
      → (acquire_on now k fp owner ms redis (live now k redis)).1 key ≡ some e
  acquire_spares now key k fp owner ms redis e at lt = elim (Bool-cases (k == key)) [
    | inr ne ↦
        acquire_on-other now key k fp owner ms redis (live now k redis) (ground (arith, ne)) ∙ at
    | inl t ↦
        let same : key ≡ k = ground (arith, t) in
        subst (λ j. (acquire_on now j fp owner ms redis (live now j redis)).1 key ≡ some e) same
          (rw (live_of now key redis e at lt) at)
  ]

  with_ms-same :
      {A : Type 0} (redis : Redis Text) (r : Result StoreError ℕ) (key : ℕ) (e : Entry Text)
      (f : ℕ → Result StoreError A × Redis Text)
      → redis key ≡ some e
      → ((ms : ℕ) → (f ms).1 key ≡ some e)
      → (with_ms json redis r f).1 key ≡ some e
  with_ms-same redis (ok ms) key e f at h = h ms
  with_ms-same redis (err x) key e f at h = at

  run-Spares :
      (key : ℕ) (e : Entry Text) (c : Call Payload) (redis : Redis Text)
      → redis key ≡ some e
      → Spares key e c
      → run json c redis key ≡ some e
  unfolding run acquire complete release extend acquire_script complete_script release_script
      extend_script
  run-Spares key e (call_acquire now k owner fp ttl) redis at lt =
      with_ms-same redis (to_whole_ms ttl) key e
        (λ ms. answer_reply json (acquire_script now k fp owner ms redis)) at
        λ ms. acquire_spares now key k fp owner ms redis e at lt
  run-Spares key e (call_complete now k owner response ttl) redis at h =
      with_ms-same redis (to_whole_ms ttl) key e
        (λ ms. answer json (complete_script now k owner (json.stringify response) ms redis)) at
        λ ms. owned_spares now key k owner _ redis e at h
  run-Spares key e (call_release now k owner) redis at h =
      owned_spares now key k owner _ redis e at h
  run-Spares key e (call_extend now k owner ttl) redis at h =
      with_ms-same redis (to_whole_ms ttl) key e
        (λ ms. answer json (extend_script now k owner ms redis)) at
        λ ms. owned_spares now key k owner _ redis e at h

  pub run_all-Spares :
      (key : ℕ) (e : Entry Text) (cs : List (Call Payload)) (redis : Redis Text)
      → redis key ≡ some e
      → All (Spares key e) cs
      → run_all json cs redis key ≡ some e
  unfolding run_all
  run_all-Spares key e [] redis at h = at
  run_all-Spares key e (c ∷ cs) redis at (h, hs) =
      run_all-Spares key e cs (run json c redis) (run-Spares key e c redis at h) hs
