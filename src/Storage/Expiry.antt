-- ===== src/Storage/Expiry.antt =====
-- When an item is there.
use shig.Common.{
  none, some, ltb, if◌then◌else◌, lookup-insert, text_key, uuid_key, lookup-delete, ◌∙◌, ◌≢◌, ℕ,
  ◌≡◌, ◌≤◌, ◌<◌, ◌+◌, ◌/◌, refl, Text, List, [], ◌∷◌, arith,
}
use shig.Storage.{Memory, u32, second, get, set, expiry, sweep, sweep_one}

expiry-fits :
    (ttl now : ℕ) → 0 < ttl → ttl / second + now < u32 → expiry ttl now ≡ ttl / second + now
unfolding expiry
expiry-fits ttl now pos fits = ground arith

module _ {ℓ} {V : Type ℓ} where
  -- After a Set with a positive lifetime, as long as the expiry fits in 32 bits, Get returns the
  -- value before the whole seconds of the lifetime have passed and nothing from then on.
  pub get-set :
      (m : Memory V) (key : Text) (v : V) (ttl now later : ℕ)
      → 0 < ttl
      → 0 < ttl / second + now
      → ttl / second + now < u32
      → get (set m key v ttl now) key later
        ≡ (if ltb later (ttl / second + now) then some v else none)
  unfolding get set
  get-set m key v ttl now later pos start fits = ground (
    arith,
    lookup-insert key key (record { expires = expiry ttl now; value = v }) m,
    expiry-fits ttl now pos fits,
  )

  -- A Set leaves what Get returns for every other key.
  pub get-set_ne :
      (m : Memory V) (key j : Text) (v : V) (ttl now later : ℕ)
      → key ≢ j
      → get (set m key v ttl now) j later ≡ get m j later
  unfolding get set
  get-set_ne m key j v ttl now later ne =
      ground (arith, lookup-insert key j (record { expires = expiry ttl now; value = v }) m)

  sweep_one-get :
      (ts now : ℕ) (k j : Text) (m : Memory V)
      → ts ≤ now
      → get (sweep_one ts k m) j now ≡ get m j now
  unfolding get sweep_one
  sweep_one-get ts now k j m h = ground (arith, lookup-delete k j m)

  -- The collector, whatever keys it collected and however the map changed since, does not change
  -- what Get returns at its time or later.
  pub get-sweep :
      (ts now : ℕ) (ks : List Text) (j : Text) (m : Memory V)
      → ts ≤ now
      → get (sweep ts ks m) j now ≡ get m j now
  unfolding sweep
  get-sweep ts now [] j m h = refl
  get-sweep ts now (k ∷ ks) j m h =
      get-sweep ts now ks j (sweep_one ts k m) h ∙ sweep_one-get ts now k j m h
