-- ===== src/Thread/Return.antt =====
-- The return of a joiner that waits when the thread begins to terminate.
use lib_system_call.Base.{ℕ, ◌≡◌, ◌≢◌, ◌⊎◌}
use lib_system_call.Thread.State.{
  Joiner, outside, joinable_seen, tested, exited_seen, joinable_unset, alive_seen, gate_taken,
  waiting, leaving, ctx_kept, ctx_cleared, cleaning, joined, refused, join_faulted, Shared,
}

-- The accesses that a served joiner has left.
left_to_join : Joiner → ℕ
left_to_join outside = 0
left_to_join joinable_seen = 0
left_to_join tested = 0
left_to_join exited_seen = 0
left_to_join joinable_unset = 0
left_to_join alive_seen = 0
left_to_join gate_taken = 0
left_to_join waiting = 5
left_to_join leaving = 4
left_to_join ctx_kept = 3
left_to_join ctx_cleared = 2
left_to_join cleaning = 1
left_to_join joined = 0
left_to_join refused = 0
left_to_join join_faulted = 0

-- The join has returned, or it has met the structure that was unmapped before.
abbrev Ends : (freed : ℕ) → Shared → Type 0
Ends freed t = (t.joiner ≡ joined) ⊎ ((t.joiner ≡ join_faulted) × (freed ≢ 0))
