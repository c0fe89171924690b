-- ===== src/Lib.antt =====
-- Game session servers. GameLiftLinuxServer is a server on one thread: an event loop reads from
-- the sockets of its clients into circular buffers, cuts packets out of them, logs players in and
-- out at the GameLift service, broadcasts chat and movement, and flushes what is to be sent.
-- GameLiftGameServer is the same server for Windows, on many threads, with a reader-writer lock, a
-- pool of objects, and sends and receives that the system completes. Cocos2dxGameClient is the game
-- client: a thread takes the packets of the server out of a circular buffer and has them drawn.
-- DummyClients are many clients in one process, whose work is cut into jobs.
--
-- Buffer: GameLiftLinuxServer/CircularBuffer.h and .cpp. `read` is `CircularBuffer::Read`, and so
-- on; pointers are offsets into the array, and a null pointer is `none`. `Buffer/Queue` is what
-- the buffer promises, a bounded queue of bytes. `Buffer/Inv` is the representation invariant,
-- `Buffer/Drain` is about reading, `Buffer/Fill` about writing and about `read` into `GetBuffer`,
-- `Buffer/Window` about the pointers that are given out, and `Buffer/Refine` joins them.
-- Packet: PacketShare/PacketType.h, the packets as bytes.
-- Server/State: the objects of GameLiftLinuxServer. A session object has a number in place of its
-- address; `World` is all the objects, and every operation takes and returns it.
-- Server/Roster, Server/Broadcast: GameLiftLinuxServer/GameLiftManager.cpp.
-- Server/Session, Server/Receive, Server/Flush, Server/Echo: GameLiftLinuxServer/ClientSession.cpp.
-- Server/Handlers: GameLiftLinuxServer/PacketHandler.cpp.
-- Server/Clients: GameLiftLinuxServer/ClientManager.cpp.
-- Lock: GameLiftGameServer/GameLiftGameServer/FastSpinlock.cpp, as a step relation on threads.
-- Overlapped: the sending half of GameLiftGameServer/GameLiftGameServer/Session.cpp, and the part
-- of `DoIocpJob` in IOThread.cpp that completes a send. `Overlapped/Flight` says what holds of a
-- session, `Overlapped/Steps` is about its locked parts, `Overlapped/Sending` about any history.
-- Game: the rest of the Windows server, over Overlapped. `Game/State` has its objects and what a call
-- ends in, `Game/Manager` is GameLiftManager.cpp with the set of players of GameSession.cpp,
-- `Game/Player` PlayerSession.cpp and the broadcast, `Game/Handlers` PacketHandler.cpp, and
-- `Game/Receive` the receiving half of Session.cpp. What is proved of them stands there and in
-- `Game/Locking`, `Game/Agreement`, `Game/Delivery` and `Game/Stuck`.
-- Pool: GameLiftGameServer/GameLiftGameServer/ObjectPool.h, as a step relation on threads.
-- EventLog: the ring of events in Log.h and Log.cpp of the same directory.
-- TcpClient: Cocos2dxGameClient/Classes/TcpClient.cpp. `TcpClient/Sending` is about `send`,
-- `TcpClient/Rounds` about one packet, `TcpClient/Cut` about a stream of packets that has arrived in
-- part, `TcpClient/Turns` about one `recv`, `TcpClient/Stream` about the thread.
-- Jobs: `JobQueue` of DummyClients/DummyClients/JobDispatcher.h, a queue of nodes with pointers.
-- `Jobs/Chain` and `Jobs/Link` are about the chain of nodes, `Jobs/Pops` about the steps of
-- `Pop`, `Jobs/Order` about any interleaving, `Jobs/Ready` about a `Pop` that nothing falls into.
-- Dispatcher: `AsyncExecutable` of the same file, over a queue of tasks.
-- Worker: `AsyncExecutable` again, with Timer.cpp and the loop of WorkerThread.cpp: the jobs of one
-- thread on many objects. `Worker/Inv` says what holds between two steps, `Worker/Work` which jobs
-- come of a job, `Worker/Steps`, `Worker/Nested`, `Worker/Flushes` and `Worker/Runs` are about
-- steps and loops, `Worker/Quiet` about `DoTask`, `Worker/Timed` about `DoTimerJob`.
-- Dummy: the sessions and players of DummyClients. `Dummy/State` has a player's session and what a call
-- ends in, `Dummy/Session` is Session.cpp, `Dummy/Player` PlayerSession.cpp and PacketHandler.cpp,
-- `Dummy/Events` `DoIocpJob` of WorkerThread.cpp and all that can happen to a session, `Dummy/Games`
-- GameSession.cpp, `Dummy/Manager` GameLiftManager.cpp. `Dummy/Ensures` has the rules for calls that may crash,
-- `Dummy/Counted` is about reference counts, `Dummy/Script` about the test that a player plays.
-- Spinlock: DummyClients/DummyClients/FastSpinlock.cpp, as a step relation on threads.
-- Schedule: GameLiftLinuxServer/Scheduler.h and .cpp. What a task pushes is a parameter, and the
-- clock's tick an argument.
-- Prelude: Boolean tests on numbers, lists measured by native numbers, slices of a list.
-- The files named Tests hold runs at concrete inputs.
--
-- What the code gets from outside is a parameter: the outcomes of the GameLift SDK's calls and of
-- `setsockopt` (`Services`), what `read` and `write` on a socket return (`Arrival`, `Sending`), and
-- the events of `epoll_wait`. Where the code has no defined result or aborts, the model has a
-- `Fault`: an assertion that fails, a range-for over a container from which the current element was
-- erased, a string that is not terminated, a null pointer.
--
-- In `Game` a call is one step of one thread; a thread that asks for the manager's lock while it holds
-- it is an outcome of its own, and so is the end of the process. In `Dummy` a call is one step, and
-- the steps come in any order; in `Worker` there is one thread. In `Lock`, `Pool`, `Jobs`,
-- `Dispatcher`, `Spinlock` and `Overlapped` the threads interleave.
--
-- `processPacket` runs on fuel, one unit more than there are bytes, of which each packet takes some.
-- `OnRead` runs on fuel as `DispatchPacket` does.
-- `DoTask` and its loops run on fuel, for which three more than there are jobs to run is enough, and
-- `DoTimerJob` on rounds, for which one more than there are due jobs is enough.
-- `CreateGameSession` and `CheckGameSessionPlacement` ask the service for so many rounds at most.
-- `DoTasks` runs on fuel, for which one more than there are due tasks is enough.
-- `DispatchPacket` runs on fuel, one unit for each round; one more than there are packets is enough,
-- and `Server/Stuck` has the inputs for which no fuel is enough. The loops of `OnReceive` and
-- `SendFlush` go over the results of their calls of `read` and `write`. Sizes are `size_t` and wrap
-- at 2 ^ 64 where they are added; the capacity of a buffer is below 2 ^ 63. The lock is right for up
-- to 2047 threads, which is as far as the writers' field of its word reaches.
-- Counts that are an `int` in the code are natural numbers, and the results say up to where they
-- stand for it.
--
-- Not modelled: printing, the setting up of sockets and of epoll, the closing of a socket by a
-- session's destructor, and the periodic task `OnTick`, which nothing starts; in the Windows server
-- the start of the process and its threads; in the game client the scene and the calls of the AWS
-- client; in DummyClients the calls that open a socket. Coordinates of a dummy player are integers.
pub mod Prelude
pub mod Buffer
pub mod Packet
pub mod Server
pub mod Dispatcher
pub mod Dummy
pub mod EventLog
pub mod Game
pub mod Jobs
pub mod Lock
pub mod Overlapped
pub mod Pool
pub mod Schedule
pub mod Spinlock
pub mod TcpClient
pub mod Worker
