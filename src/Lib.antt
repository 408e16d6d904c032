-- ===== src/Lib.antt =====
-- Verification library for the network application programs of this repository: the command shells
-- of hw4 and hw6/part2, the ZeroMQ task systems of hw12 and hw13, the producers and the consumer
-- of hw9, the stacks of test2, the sequence servers of hw10, the dictionaries of hw6/part3 and
-- hw11, and the signal functions of hw8. Paths are from the repository's root.
--
-- A shell reads a line, cuts it into a vector of words (hw4/parse.c), looks for "&"
-- (hw4/is_background.c), applies "<" and ">" (hw6/part2/redirect_in.c, redirect_out.c), and runs
-- the commands around "|" (hw6/part2/pipe_present.c, pipe_command.c). The task system has
-- producers, which send tasks as text, a broker, which hands them to idle workers or lets them
-- wait in a bounded queue, and workers, which report each finished task (hw12/producer.c,
-- broker.c, worker.c); hw12/program.c starts and stops them all. In hw13 a dispatcher gives typed
-- tasks to workers (hw13/dispatcher.c), which borrow what they need from a broker (hw13/broker.c);
-- both use the queue of hw12. In hw9/prod_cons.c several producers push onto a stack in shared
-- memory, and one consumer pops. In test2 two threads share a stack under a mutex and a condition
-- variable. hw6/part3 makes a file of records out of a dictionary and looks words up in it; in
-- hw11 a client asks a server for them. hw8/SystemVsigs.c has the signal functions of System V.
--
-- The files:
--   Prelude          Boolean tests, lists, text, decimals, integers over the native numbers, and
--                    `Run`, the result of C code that may touch memory it must not
--   Shell/Argv       a `char **` vector, slot by slot: unwritten, NULL, live or freed
--   Shell/Parse      `parse` and `free_argv` of hw4/parse.c and of its copy in hw6/part2; `alloc`
--                    says of each malloc and realloc, by number, whether it succeeds
--   Shell/Background `is_background` of hw4/is_background.c and of its copy in hw6/part2
--   Shell/Pipe       `pipe_present` and `pipe_and_exec`
--   Shell/Redirect   `redirect_in` and `redirect_out`, one definition with a direction
--   Shell/Builtin    the table of hw4/builtin.c and its functions
--   Shell/Session    the loop of hw4/shell.c and `run_command` of hw4/run_command.c
--   Shell/Catalog    the table of hw6/part2/builtin.c and its functions
--   Shell/Child      `run_command` of hw6/part2/run_command.c
--   Shell/Second     the loop of hw6/part2/shell.c
--   Dictionary       records of a dictionary: Convert for hw6/part3/convert.c, Lookup for lookup1.c
--                    and main.c, Remote for lookup5.c, lookup7.c and zmq_ipc_server.c of hw11/part1
--   Queue            `Enqueue` and `Dequeue` of hw12/broker.c on a heap, and the list they stand for
--   Broker/Message   the text of a task, the buffer of 80 bytes, `get_task_id`
--   Broker           the variables of `main` in hw12/broker.c and one round of its loop
--   TaskSystem       producer, broker and workers of hw12 with the messages between them
--   Launcher         hw12/program.c: the processes of the task system, started and stopped
--   SharedClock      hw12/latency_shm.h: descriptors, mappings and the object they stand for
--   SharedStack      `push`, `pop` and the processes of hw9/prod_cons.c, step by step; a critical
--                    section, which the mutex keeps others out of, is one step
--   Signals          `sigset`, `sighold`, `sigrelse`, `sigignore` and the mask of `sigpause`
--   Monitor          the stack of test2/stack_cond.c under the threads of test2/main_test_stack.c,
--                    and a turn of the loops of test2/stack_mutex_only.c
--   SequenceServer   the loops of hw10/ex44_6/server.c and hw10/ex46_2/server.c, and
--                    their clients
--   RemoteCall       extra1/myrpc.c: a line on its way to the executor, and its output back
--   Popen            hw7/popen_close.c: the tables of parent and child
--   PipeListing      hw6/part1/pipe_ls.c: a child that writes into a pipe, and its parent
--   Capitals         hw7/toCapital.c: a parent and a child that answers in capitals
--   Tail             hw3/tail.c, with memory that was written or not
--   Tee              hw2/tee.c
--   ParentExists     hw5/test_parent_exists.c
--   Copy             hw2/cp.c, on files with holes
--   FifoModes        hw10/ex44_7/nonblock_verify.c: two processes that open a FIFO in four modes
--   Emergency        the loops of hw13/broker.c (Lending), dispatcher.c (Dispatcher) and
--                    worker.c (Worker)
--
-- The C library and the kernel are parameters or outcomes: malloc, open, dup2, pipe and fork may
-- fail as the parameters say, execvp ends a process. strtok, strcmp, free, snprintf and sscanf are
-- written out as far as the code uses them, since the results depend on the bytes. In the broker a
-- message received is an input of the step, a message sent is its output, and the clocks are part
-- of the input. Which numbers are signals is a parameter, and so is what `open` answers on a FIFO.
-- A task that had to wait is sent again with the text up to its NUL; the C code sends the 80 bytes
-- of the buffer. The broker's queues stand as the lists of Queue/Fifo.
--
-- Loops over a vector run on fuel, the size of the allocation or the length of the line, of which
-- a round uses up a slot or a byte; `pipe_and_exec` has fuel for the commands of the pipeline, and
-- the loops of the dictionaries have it for the lines or the bytes of the file. The numbers of a
-- task are below 2^31 in the theorem on their text; counters are not bounded. sscanf of a number
-- that is beyond an `int` is read as it stands. The lengths that the clients of hw10 ask for are
-- not negative.
--
-- In the dictionaries `bsearch` is a parameter with the laws that the C library documents, writes
-- succeed, and what a local array holds before it is written is a parameter. In hw13 a message is
-- what the code hands to its socket; the frames that ZeroMQ puts around it on its way from a REQ
-- to a ROUTER socket are a parameter with the law that ZeroMQ documents, and what the broker and
-- the dispatcher send is modelled up to `zmq_msg_send`. The dispatcher is read with `zmq_poll` and
-- STDIN_FILENO where it names `zmq_pool` and STDIO_FILENO, which do not exist.
--
-- The task system starts behind the messages of the workers that are ready, and no message is lost
-- on its way.
--
-- Not modelled: the start of the programs, their sockets and printouts, the monitor of hw12, the
-- delivery of signals, and the other exercises (the process tree and the searches through /proc of
-- hw5, the other programs of hw6/part1). The files that hw8 and hw10 share with The Linux
-- Programming Interface are third-party code.
pub mod Prelude
pub mod Shell
pub mod Queue
pub mod Broker
pub mod SharedStack
pub mod Signals
pub mod Emergency
pub mod Monitor
pub mod SequenceServer
pub mod Dictionary
pub mod Launcher
pub mod TaskSystem
pub mod RemoteCall
pub mod Copy
pub mod Popen
pub mod FifoModes
pub mod SharedClock
pub mod PipeListing
pub mod Capitals
pub mod Tail
pub mod Tee
pub mod ParentExists
