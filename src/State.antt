-- ===== src/State.antt =====
-- src/state.rs: the state that the gateway, the player and the recorder share behind a mutex. Each
-- operation holds the lock, so it is one step; a wait is over once its condition holds, and
-- `notify_all` in `set_state` wakes every waiter to look again.
use discord_ext_audiorec.Prelude.{Bool, true, false, not}

pub data ConnectionState : Type 0 where
  disconnected connected playing recording record_finished paused finished : ConnectionState

-- `#[derive(PartialEq)]`.
unfoldable pub eq_state : ConnectionState → ConnectionState → Bool
eq_state disconnected disconnected = true
eq_state connected connected = true
eq_state playing playing = true
eq_state recording recording = true
eq_state record_finished record_finished = true
eq_state paused paused = true
eq_state finished finished = true
eq_state _ _ = false

abbrev pub default : ConnectionState
default = disconnected

unfoldable pub is_state : ConnectionState → ConnectionState → Bool
unfolding eq_state
is_state state condition = eq_state state condition

unfoldable pub set_state : ConnectionState → ConnectionState → ConnectionState
set_state state condition = condition

-- Whether a thread in `wait_until` or `wait_not_until` goes on when it looks at the state.
unfoldable pub wait_until : ConnectionState → ConnectionState → Bool
unfolding eq_state
wait_until state condition = eq_state state condition

unfoldable pub wait_not_until : ConnectionState → ConnectionState → Bool
unfolding eq_state
wait_not_until state condition = not (eq_state state condition)
