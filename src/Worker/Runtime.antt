-- ===== src/Worker/Runtime.antt =====
-- worker/runtime/BlockingRuntime.cpp: the loop over the tasks of a connection. What other threads
-- ask for meanwhile comes from outside: whether a pause has been requested before a turn.
use task_messenger.Common.{
  ℕ, zero, suc, ◌+◌, Bool, true, false, Option, none, some, List, if◌then◌else◌,
}
use task_messenger.Message.{TaskHeader, PayloadBuffer}
use task_messenger.Transport.Blocking.{Stream}
use task_messenger.Skills.{SkillRegistry, create_response_buffer, dispatch}
use task_messenger.Worker.Frames.{
  Done, ok, throws, waits, length_error, Read, read_task, write_response,
}

pub record Runtime : Type 0 where
  pub socket : Option Stream
  pub pause_requested : Bool
  pub disconnect_requested : Bool
  pub tasks_completed : ℕ
  pub bytes_sent : ℕ
  pub bytes_received : ℕ

abbrev pub pause : Runtime → Runtime
pause r = record r { pause_requested = true }

abbrev close_socket : Option Stream → Option Stream
close_socket none = none
close_socket (some s) = some (record s { is_open = false })

abbrev pub disconnect : Runtime → Runtime
disconnect r = record r { disconnect_requested = true; socket = close_socket r.socket }

abbrev pub shutdown : Runtime → Runtime
shutdown r = record r { socket = close_socket r.socket }

abbrev pub release : Runtime → Runtime
release r = record r { socket = none }

abbrev pub is_connected : Runtime → Bool
is_connected r = elim r.socket [ none ↦ false | some s ↦ s.is_open ]

-- A turn of the loop: it is over with a result, or goes on.
pub data Turn : Type 0 where
  returns : Bool → Turn
  goes_on : Turn
  -- An exception that the loop does not catch.
  escapes : Turn
  -- A read that waits, until the socket is shut down.
  stuck : Turn

module _ (registry : SkillRegistry) where
  abbrev pub count_sent : Done ℕ × Stream → Runtime → Turn × Runtime
  count_sent (throws length_error, s) r = (escapes, record r { socket = some s })
  count_sent (throws e, s) r = (returns false, record r { socket = some s })
  count_sent (waits, s) r = (stuck, record r { socket = some s })
  count_sent (ok n, s) r = (
    goes_on,
    record r {
      socket = some s;
      bytes_sent = r.bytes_sent + n;
      tasks_completed = suc r.tasks_completed;
    },
  )

  abbrev pub answer : TaskHeader → PayloadBuffer → Bool × List ℕ → Stream → Runtime → Turn × Runtime
  answer header buffer (false, _) s r = (returns false, record r { socket = some s })
  answer header buffer (true, bytes) s r =
      count_sent (write_response header.task_id (record buffer { bytes = bytes }) s) r

  abbrev pub execute :
      TaskHeader → List ℕ → Option PayloadBuffer → Stream → Runtime → Turn × Runtime
  execute header payload none s r = (returns false, record r { socket = some s })
  execute header payload (some buffer) s r =
      answer header buffer (dispatch registry header.skill_id payload buffer.bytes) s r

  abbrev pub serve_read : Done Read × Stream → Runtime → Turn × Runtime
  serve_read (throws e, s) r = (returns false, record r { socket = some s })
  serve_read (waits, s) r = (stuck, record r { socket = some s })
  serve_read (ok (header, payload, n), s) r =
      execute header payload (create_response_buffer registry header.skill_id payload) s
        (record r { bytes_received = r.bytes_received + n })

  -- One turn of the `for` loop, over the socket that the run holds.
  unfoldable pub run_turn : Stream → Runtime → Turn × Runtime
  run_turn s r =
      if r.pause_requested
      then (returns true, record r { pause_requested = false })
      else serve_read (read_task s) r

  abbrev pub current : Stream → Option Stream → Stream
  current s none = s
  current s (some s') = s'

  -- The loop, and the turn that it ends or is stuck with; `none` when the fuel runs out. Each turn
  -- that goes on reads a header.
  unfoldable pub loop : (ℕ → Bool) → ℕ → Stream → Runtime → Option (Turn × Runtime)
  unfolding run_turn
  loop pauses zero s r = none
  loop pauses (suc fuel) s r =
      let asked = if pauses fuel then pause r else r in
      let (turn, r') = run_turn s asked in
      elim turn [
        | returns success ↦ some (returns success, r')
        | goes_on ↦ loop pauses fuel (current s r'.socket) r'
        | escapes ↦ some (escapes, r')
        | stuck ↦ some (stuck, r')
      ]

  abbrev pub started : Runtime → Runtime
  started r = record r { pause_requested = false; disconnect_requested = false }

  unfoldable pub run_loop : (ℕ → Bool) → ℕ → Runtime → Option (Turn × Runtime)
  unfolding loop
  run_loop pauses fuel r = elim r.socket [
    | none ↦ some (returns false, r)
    | some s ↦ loop pauses fuel s (started r)
  ]
