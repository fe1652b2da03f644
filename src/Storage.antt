-- ===== src/Storage.antt =====
-- internal/storage/memory.go: a map whose items expire. The time is an argument: the uint32
-- timestamp that the updater stored last. A duration is in nanoseconds, a negative one counts as 0.
pub mod Expiry
use shig.Common.{
  leb, ◌&&◌, ltb, text_key, uuid_key, ◌==◌, delete, if◌then◌else◌, insert, lookup, not, ℕ, ◌+◌, ◌/◌,
  ◌%◌, ◌^◌, Text, Bool, Option, none, some, List, [], ◌∷◌, Map,
}

pub record Item {ℓ} (V : Type ℓ) : Type ℓ where
  pub expires : ℕ
  pub value : V

abbrev pub Memory {ℓ} : Type ℓ → Type ℓ
Memory V = Map Text (Item V)

abbrev pub u32 : ℕ
u32 = 2 ^ 32

abbrev pub second : ℕ
second = 1_000_000_000

-- v.e != 0 && v.e <= timestamp
unfoldable pub is_expired {ℓ} : {V : Type ℓ} → ℕ → Item V → Bool
is_expired now i = not (i.expires == 0) && leb i.expires now

-- uint32(ttl.Seconds()) + timestamp, for a positive duration
unfoldable pub expiry : ℕ → ℕ → ℕ
expiry ttl now = if ltb 0 ttl then (ttl / second % u32 + now) % u32 else 0

module _ {ℓ} {V : Type ℓ} where
  live : ℕ → Option (Item V) → Option V
  unfolding is_expired
  live now none = none
  live now (some i) = if is_expired now i then none else some i.value

  unfoldable pub get : Memory V → Text → ℕ → Option V
  unfolding live
  get m key now = live now (lookup key m)

  unfoldable pub set : Memory V → Text → V → ℕ → ℕ → Memory V
  unfolding expiry
  set m key v ttl now = insert key (record { expires = expiry ttl now; value = v }) m

  unfoldable pub delete_key : Memory V → Text → Memory V
  delete_key m key = delete key m

  unfoldable pub reset : Memory V → Memory V
  reset m = []

  -- gc, under the read lock: the keys that have expired
  unfoldable pub collect : ℕ → Memory V → List Text
  unfolding is_expired
  collect ts [] = []
  collect ts ((k, i) ∷ m) = let rest = collect ts m in if is_expired ts i then k ∷ rest else rest

  sweep_one : ℕ → Text → Memory V → Memory V
  unfolding is_expired
  sweep_one ts k m = elim (lookup k m) [
    | none ↦ m
    | some i ↦ if is_expired ts i then delete k m else m
  ]

  -- gc, under the write lock: the map may have changed since, and each key is tested again
  unfoldable pub sweep : ℕ → List Text → Memory V → Memory V
  unfolding sweep_one
  sweep ts [] m = m
  sweep ts (k ∷ ks) m = sweep ts ks (sweep_one ts k m)
