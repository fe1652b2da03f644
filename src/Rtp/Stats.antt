-- ===== src/Rtp/Stats.antt =====
-- internal/rtp/stats/registry.go. The registry's lock is part of the state: a call that finds it
-- taken for good never returns, which is `none`. A channel is a number, drawn by `make`; what the
-- workers measure is not modelled.
pub mod Lock
use shig.Common.{
  text_key, uuid_key, delete, insert, lookup, if◌then◌else◌, ℕ, ◌+◌, Bool, true, false, Option,
  none, some, List, [], ◌∷◌, ◌++◌, Map, map,
}
use shig.Rtp.Endpoint.{WorkerCall, start_worker, stop_worker}

pub record Registry : Type 0 where
  pub locked : Bool
  pub stats_list : Map ℕ ℕ
  pub next_channel : ℕ
  pub closed : List ℕ

unfoldable pub new_registry : Registry
new_registry = record { locked = false; stats_list = []; next_channel = 0; closed = [] }

-- StartWorker; false stands for ErrTrackAlreadyRegistered, whose return skips `r.Unlock()`.
unfoldable pub start : Registry → ℕ → Option (Registry × Bool)
start r ssrc = if r.locked then none else (elim (lookup ssrc r.stats_list) [
  | some c ↦ some (record r { locked = true }, false)
  | none ↦ some (
    record r {
      stats_list = insert ssrc r.next_channel r.stats_list;
      next_channel = r.next_channel + 1;
    },
    true,
  )
])

-- StopWorker
unfoldable pub stop : Registry → ℕ → Option Registry
stop r ssrc = if r.locked then none else (elim (lookup ssrc r.stats_list) [
  | none ↦ some r
  | some c ↦ some (record r { stats_list = delete ssrc r.stats_list; closed = c ∷ r.closed })
])

-- StopAllWorker
unfoldable pub stop_all : Registry → Option Registry
stop_all r =
    if r.locked
    then none
    else some (record r { stats_list = []; closed = map (λ e. e.1) r.stats_list ++ r.closed })

after_start : Option (Registry × Bool) → Option Registry
after_start none = none
after_start (some (r, b)) = some r

-- The calls of an endpoint; an error is logged only.
unfoldable pub run_call : Registry → WorkerCall → Option Registry
unfolding start stop after_start
run_call r (start_worker ssrc) = after_start (start r ssrc)
run_call r (stop_worker ssrc) = stop r ssrc

unfoldable pub run_calls : Registry → List WorkerCall → Option Registry
unfolding run_call
run_calls r [] = some r
run_calls r (c ∷ cs) = elim (run_call r c) [ none ↦ none | some r' ↦ run_calls r' cs ]
