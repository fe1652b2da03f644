-- ===== src/Rtp/Stats/Lock.antt =====
-- When the calls of the registry return.
use shig.Common.{
  inr, ◌+◌, inl, Option-cases, lookup-delete, lookup-insert, delete, insert, ◌&&◌, is_some,
  text_key, uuid_key, lookup, not, ℕ, ◌≡◌, refl, Bool, true, false, none, some, List, [], ◌∷◌,
  arith, Map, Option, Bool-cases,
}
use shig.Rtp.Endpoint.{WorkerCall, start_worker, stop_worker}
use shig.Rtp.Stats.{stop, run_calls, Registry, start, stop_all, run_call}

-- If the lock is free and a source is started that has a worker already, then the error is returned
-- with the lock held: every later call of the registry, the teardown's StopAllWorker included,
-- blocks for ever.
pub start-twice_blocks :
    (r : Registry) (ssrc c : ℕ)
    → r.locked ≡ false
    → lookup ssrc r.stats_list ≡ some c
    → (r' : Registry) × (start r ssrc ≡ some (r', false))
      × ((call : WorkerCall) → run_call r' call ≡ none)
      × (stop_all r' ≡ none)
unfolding start run_call stop_all
start-twice_blocks r ssrc c h e = (record r { locked = true }, ground arith, calls, refl)
  where
    calls : (call : WorkerCall) → run_call (record r { locked = true }) call ≡ none
    calls (start_worker s) = refl
    calls (stop_worker s) = refl

-- The sources of the start calls are new to the registry when their turn comes.
unfoldable pub starts_new : Map ℕ ℕ → List WorkerCall → Bool
starts_new m [] = true
starts_new m (start_worker s ∷ cs) = not (is_some (lookup s m)) && starts_new (insert s 0 m) cs
starts_new m (stop_worker s ∷ cs) = starts_new (delete s m) cs

abbrev SameKeys : Map ℕ ℕ → Map ℕ ℕ → Type 0
SameKeys m m' = (k : ℕ) → is_some (lookup k m) ≡ is_some (lookup k m')

SameKeys-insert :
    (s v w : ℕ) (m m' : Map ℕ ℕ) → SameKeys m m' → SameKeys (insert s v m) (insert s w m')
SameKeys-insert s v w m m' h k = ground (arith, lookup-insert s k v m, lookup-insert s k w m', h k)

SameKeys-delete : (s : ℕ) (m m' : Map ℕ ℕ) → SameKeys m m' → SameKeys (delete s m) (delete s m')
SameKeys-delete s m m' h k = ground (arith, lookup-delete s k m, lookup-delete s k m', h k)

run_calls-same :
    (r : Registry) (m : Map ℕ ℕ) (cs : List WorkerCall)
    → r.locked ≡ false
    → SameKeys m r.stats_list
    → starts_new m cs ≡ true
    → (r' : Registry) × (run_calls r cs ≡ some r') × (r'.locked ≡ false)
unfolding run_calls start stop starts_new
run_calls-same r m [] h k e = (r, refl, h)
run_calls-same r m (start_worker s ∷ cs) h k e = elim (Option-cases (lookup s r.stats_list)) [
  | inl p ↦
      let r' : Registry = record r {
        stats_list = insert s r.next_channel r.stats_list;
        next_channel = r.next_channel + 1;
      } in
      let (q, run, open_q) =
        run_calls-same r' (insert s 0 m) cs h (SameKeys-insert s 0 r.next_channel m r.stats_list k)
          (ground arith) in
      (q, ground arith, open_q)
  | inr (c, p) ↦ absurd (ground (arith, k s))
]
run_calls-same r m (stop_worker s ∷ cs) h k e = elim (Option-cases (lookup s r.stats_list)) [
  | inl p ↦
      let (q, run, open_q) =
        run_calls-same r (delete s m) cs h (λ j. ground (arith, lookup-delete s j m, k j)) e in
      (q, ground arith, open_q)
  | inr (c, p) ↦
      let r' : Registry = record r { stats_list = delete s r.stats_list; closed = c ∷ r.closed } in
      let (q, run, open_q) =
        run_calls-same r' (delete s m) cs h (SameKeys-delete s m r.stats_list k) e in
      (q, ground arith, open_q)
]

-- All calls have returned and the lock is free.
abbrev pub is_free : Option Registry → Bool
is_free none = false
is_free (some r) = not r.locked

run_calls-locked :
    (r : Registry) (cs : List WorkerCall) → r.locked ≡ true → is_free (run_calls r cs) ≡ false
unfolding run_calls start stop
run_calls-locked r [] h = ground arith
run_calls-locked r (start_worker s ∷ cs) h = ground arith
run_calls-locked r (stop_worker s ∷ cs) h = ground arith

run_calls-stuck :
    (r : Registry) (m : Map ℕ ℕ) (cs : List WorkerCall)
    → r.locked ≡ false
    → SameKeys m r.stats_list
    → starts_new m cs ≡ false
    → is_free (run_calls r cs) ≡ false
unfolding run_calls start stop starts_new
run_calls-stuck r m [] h k e = absurd (cc e)
run_calls-stuck r m (start_worker s ∷ cs) h k e = elim (Option-cases (lookup s r.stats_list)) [
  | inl p ↦
      let r' : Registry = record r {
        stats_list = insert s r.next_channel r.stats_list;
        next_channel = r.next_channel + 1;
      } in
      let rest =
        run_calls-stuck r' (insert s 0 m) cs h (SameKeys-insert s 0 r.next_channel m r.stats_list k)
          (ground (arith, k s)) in
      ground arith
  | inr (c, p) ↦ let rest = run_calls-locked (record r { locked = true }) cs refl in ground arith
]
run_calls-stuck r m (stop_worker s ∷ cs) h k e = elim (Option-cases (lookup s r.stats_list)) [
  | inl p ↦
      let rest =
        run_calls-stuck r (delete s m) cs h (λ j. ground (arith, lookup-delete s j m, k j)) e in
      ground arith
  | inr (c, p) ↦
      let r' : Registry = record r { stats_list = delete s r.stats_list; closed = c ∷ r.closed } in
      let rest = run_calls-stuck r' (delete s m) cs h (SameKeys-delete s m r.stats_list k) e in
      ground arith
]

-- If the lock is free, then all calls of a list return and leave it free exactly if no source is
-- started that has a worker at that time.
pub run_calls-returns :
    (r : Registry) (cs : List WorkerCall)
    → r.locked ≡ false
    → is_free (run_calls r cs) ≡ starts_new r.stats_list cs
run_calls-returns r cs h = elim (Bool-cases (starts_new r.stats_list cs)) [
  | inl p ↦
      let (r', run, open_r) = run_calls-same r r.stats_list cs h (λ k. refl) p in
      rw (p, run, open_r) refl
  | inr p ↦ rw (p, run_calls-stuck r r.stats_list cs h (λ k. refl) p) refl
]
