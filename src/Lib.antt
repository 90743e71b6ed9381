-- ===== src/Lib.antt =====
-- A model of task-messenger: a dispatcher hands tasks to workers over a virtual network, and the
-- workers send the results back.
--
-- How the parts interact. A generator (generators/) starts a coroutine per task, which submits its
-- task to the dispatcher and waits; the dispatcher's queue holds the tasks until a session asks for
-- one (message/), and a response context resumes the coroutine whose task has been answered. Each
-- worker that connects has a session, a coroutine that reads the worker's greeting and then, in a
-- loop, takes a task from the queue, writes it to the worker, reads the answer and tells the task's
-- completion source; the session manager owns the sessions, sweeps the ended ones out and
-- terminates all of them at a stop (dispatcher/session/). A coroutine's reads and writes are operations of a socket adapter, which the event loop tries until
-- they are complete (transport/). A worker runs a loop that reads a task, has a skill answer it and
-- writes the response, under the control of a session that connects, reconnects and pauses it
-- (worker/, skills/registry/). A worker finds the dispatcher by asking a rendezvous server, where
-- the dispatcher has registered and reports its snapshots (rendezvous/, services/rendezvous/,
-- dispatcher/monitoring/). The transport server accepts the workers and owns the manager
-- (dispatcher/transport/), and the dispatcher application starts and stops all of it (dispatcher/).
-- The sockets share one node of the virtual network, which counts their leases.
--
-- Which file models what:
--   Message            message/TaskMessage.hpp: TaskHeader, TaskMessage and its constructors.
--   Queue              message/TaskMessageQueue.cpp and CancellationToken.hpp: one definition per
--                      member function, over a record of the queue's fields, the awaitables'
--                      results and the tokens' flags, with a log of what was accepted and taken
--                      that no code reads. Queue.Service is what the queue promises, a
--                      line of tasks or of workers, and Queue.View what a queue shows of it.
--   Generator          message/ResponseContext.hpp, TaskCompletionSource.hpp and
--                      TaskSubmitAwaitable.hpp, generators/common/TaskGenerator.cpp: the coroutine
--                      of a task from its submission to its end, and the context's thread.
--                      Generator.Cases is generators/common/SkillTestIterator.cpp, with a turn of
--                      the auto-refill and of the interactive generator.
--   Session            dispatcher/session/Session.cpp: the fields, the counters and the calls that
--                      other threads make. Session.Coroutine is run_coroutine, as a step from one
--                      suspension point to the next: a frame says where the coroutine is suspended,
--                      an event what it is resumed with, and effects what it does to its
--                      surroundings.
--   Manager            dispatcher/session/SessionManager.cpp: the sessions by their id, the history
--                      of disconnects and the sweeps.
--   Server             dispatcher/transport/AsyncTransportServer.cpp: the start, the acceptor's turns,
--                      the maintenance and the stop, with the sessions that it resumes.
--   Dispatcher         dispatcher/DispatcherApp.cpp: the start, the registration loop and the stop.
--   Monitoring         dispatcher/monitoring/: the snapshots, their cache and the report loop.
--   Network            transport/socket/zerotier/ZeroTierNodeService.cpp: the networks and leases.
--   Transport.Stream   transport/socket/zerotier/ZeroTierSocket.cpp: reading and writing.
--   Transport.Socket   transport/socket/zerotier/ZeroTierSocket.cpp: the descriptor of a socket, from
--                      connecting or listening to closing.
--   Transport.Adapter  transport/coro/CoroSocketAdapter.hpp: the operation that is under way.
--   Transport.Loop     transport/coro/coroIoContext.cpp: the pending operations and the counters.
--   Transport.Blocking transport/socket/IBlockingStream.hpp, as its users see it.
--   Rendezvous.Frame   rendezvous/RendezvousProtocol.hpp: the framing of messages.
--   Rendezvous.Server  services/rendezvous/RendezvousServer.cpp: the handlers of messages.
--   Rendezvous.Accepting  services/rendezvous/RendezvousServer.cpp: the life of the server, and the
--                      loop that accepts clients.
--   Rendezvous.Client  rendezvous/RendezvousClient.cpp: an exchange of a request and a response, and
--                      the calls over it.
--   Rendezvous.Relay   services/rendezvous/SnapshotListener.cpp and
--                      dispatcher/monitoring/SnapshotReporter.cpp: the reports of snapshots.
--   Skills             skills/registry/SkillRegistry.cpp and SkillKey.hpp: the skills by their id
--                      and by their name.
--   Worker.Frames      worker/runtime/BlockingRuntime.cpp: read_task and write_response.
--   Worker.Runtime     worker/runtime/BlockingRuntime.cpp: run_loop and the runtime's controls.
--   Worker.Connecting  worker/runtime/BlockingRuntime.cpp and message/WorkerGreeting.hpp: the
--                      connection and its greeting.
--   Worker.Session     worker/session/WorkerSession.cpp: the discovery of the dispatcher, and the
--                      requests of other threads.
--   Worker.Control     worker/session/WorkerSession.cpp: one turn of the control loop of start.
--   Common             what the others share: tests, list functions and a store by number.
--
-- How state is modelled. Each object is a record of its fields, an operation a function from the
-- state to the state after it. A field that a 32 or 64 bit counter holds wraps where the model
-- writes so out; the counters of the event loop and of the worker's runtime do not. Pointers that
-- are compared, coroutine handles, tokens and completion sources are numbers. Where a lock is held,
-- the body is one step; where code of other threads or of a coroutine may run, it is a parameter:
--   - the queue's `resume` is what a resumed coroutine, and whatever runs meanwhile, does to the
--     queue;
--   - the event loop's surroundings say what the predicates answer and what a resumed coroutine
--     registers;
--   - what the network answers, and what other threads request meanwhile, is a script: a list of
--     answers, one per call; the join of a network, for which a connect waits, is one of its own;
--   - a blocking stream says whether its connection ends once nothing is left (`ends`). Where it
--     stays open, a read waits, which is an outcome of its own: the call has not returned. The peer
--     of a stream takes what is written to it.
--
-- Scripts, fuel and bounds. A loop over a script gives `none` when the script ends before the loop
-- does, as a call that has not returned yet. `read_exact` and `write_exact` take the number of bytes
-- as fuel, which is enough since each turn that goes on moves a byte. The worker's loop takes the
-- number of turns as fuel, for which one more than the bytes to read is enough where the connection
-- ends. The response context's thread takes the number of turns as fuel, for which one more than
-- the posted handles is enough. The greeting of 16 bytes is sent on fuel 16, a byte or more a turn.
-- The history of disconnects has at most 100 entries, a frame of the rendezvous protocol at most
-- 64 KiB, and a task for the worker at most 16 MiB, as the constants of the source say.
--
-- What comes from outside. JSON is read and printed by nlohmann::json: the models take what it finds
-- in a text, and what it prints, as parameters. The calls of libzt are answers of a script. A
-- skill's own code is a function of its request.
--
-- What is not modelled: the coroutine of the asynchronous worker runtime, whose loop repeats the
-- blocking one over the socket adapter (its connecting and greeting are modelled); logging, options
-- and user interfaces, which compute nothing that is kept; the serving of HTTP and of static files;
-- threads and mutexes as such, beyond the steps above; the tables of error numbers, which name the
-- codes of platforms; the vendored network node, the Go worker farm, the Python generator of skills
-- and the numeric kernels of the skills, which compute on floating-point numbers.
mod Common
pub mod Message
pub mod Queue
pub mod Session
pub mod Manager
pub mod Network
pub mod Transport
pub mod Rendezvous
pub mod Skills
pub mod Generator
pub mod Server
pub mod Monitoring
pub mod Dispatcher
pub mod Worker
