-- ===== src/Lib.antt =====
-- myqueue, a queue of computation tasks for one machine with CPUs and GPUs, and its scheduler. This
-- library models the program's core, with theorems on it.
--
-- The parts and how they interact. A command (src/cli/main.cpp) asks a client (src/ipc/ipc_client.cpp),
-- whose request goes as a framed JSON message (src/ipc/protocol.cpp) to the server's socket
-- (src/ipc/ipc_server.cpp) and from there to the server (src/core/server.cpp), which submits, deletes or
-- terminates tasks and answers queries. The task queue (src/core/task_queue.cpp) keeps the tasks by id
-- and writes them to a file. The scheduler (src/core/scheduler.cpp) runs two threads: one starts the
-- oldest pending task when the resource monitor (src/core/resource_monitor.cpp) hands out its CPUs and
-- GPUs, the other looks for processes that have ended, and releases what they held. The resource monitor
-- asks the GPU monitor (src/core/gpu_monitor.cpp) and the CPU monitor (src/core/cpu_monitor.cpp) what is
-- free; the executor (src/core/executor.cpp) starts, watches and signals processes.
--
-- Which file models which part:
--   Prelude    numbers, lists, std::set and std::map as lists in order, std::string and its parsing
--   Json       json.hpp, gmtime and timegm as parameters with laws, and results that may be exceptions
--   Task       include/myqueue/task.h, src/core/task.cpp: `Task`, `TaskStatus`, `task_eq`, `to_json`
--              and `from_json` for Task::operator==, toJson and fromJson
--   Queue      src/core/task_queue.cpp: the record `TaskQueue` for its members, one function for each
--              method (`submit`, `set_task_running`, `delete_task`, ...); IdRange is parseIdRange,
--              Batch is submitBatchFromFile and parseWorkdirsFile, Persist is save and load. Spec is
--              what the queue promises without its map: a registry of tasks by id. Requests says which
--              task stands for a request
--   Monitor    Gpu, Cpu with ProcStat, and Resource: the three monitors, with `allocate` and `release`
--   Executor   checkStatus, terminate and waitFor; `execute` is the parent's side of fork
--   Scheduler  the record `System` is all state that the scheduler's methods change; `try_schedule_next`,
--              `check_running_tasks`, `handle_task_completion` and `terminate_task` are its methods.
--              Booking, Starting, Checking and Ending compare what running tasks hold with what the
--              monitor has allocated, Grants and Shares with what they asked for. Outcome and Ends say
--              what one call does, and Late is about the last part of terminateTask after other methods
--              ran
--   Protocol   src/ipc/protocol.cpp: `MsgType`, and toJson and fromJson of each request and response;
--              Responses/Tasks has TaskInfo, QueueResponse and TaskDetailResponse
--   Ipc        src/ipc/ipc_server.cpp: the framing of a message by its length (`frame`, `read_exact`,
--              `write_exact`, `read_body`), and in Envelope its type and payload (`read_message`,
--              `write_message`). Client has the operations of src/ipc/ipc_client.cpp over an exchange of
--              one message for another
--   Config     src/core/config.cpp: Arguments is fromArgs and the paths, Record is toJson, fromJson, save,
--              load and operator==
--   Server     src/core/server.cpp: handleSubmit, handleDelete, handleDeleteAll on parsed requests, and
--              `start`; Queries has handleQueryQueue, handleGetTaskInfo and handleGetTaskLog, Dispatch
--              handleRequest with the JSON that the handlers read and write. Books and Outcome are about
--              single requests, with Attempts about the signals of a deletion, Restart about the
--              recovery in `start`, Histories puts requests and the rounds of both threads in any order,
--              and Progress follows one task to its end. Setup is the constructor on a configuration,
--              Shares is about what running tasks hold against what
--              they asked for and what the configuration excludes, and Durable about what the file of
--              tasks has of the queue
--   Wire       the client and the server together: `over_wire` sends a request through one round of
--              handleClient and back, over a socket that may cut the bytes in any way
--   Cli        src/cli/main.cpp: the commands over `Client`, an interface that Wire/Commands fills with the
--              operations of src/ipc/ipc_client.cpp
--   Tests      concrete data, and the theorems applied to it
--
-- State is passed: an operation takes the state and returns it with its result. What the program learns
-- from outside is a parameter: the output of nvidia-smi, /proc/stat, waitpid, fork and kill by moment,
-- where the moment counts the questions; the clock; std::sort and std::shuffle with what the standard
-- says of them; and the arithmetic of doubles. An int is an integer, since the modelled code compares
-- ints and adds none that could overflow; uint64_t ids and the sums of /proc/stat wrap at 2 ^ 64.
--
-- Bounds and fuel. The polling loop of waitFor runs on fuel one above its timeout in milliseconds, and
-- each round takes 100 of them. The loop of parseIdRange runs on fuel that the caller names; more fuel
-- than there are ids in the range is enough, unless the range ends at the largest uint64_t. A number is
-- printed with at most 20 digits, which a uint64_t never exceeds.
--
-- Not modelled: the interleaving of two threads inside one method (each method runs as one step,
-- and Scheduler/Late is about the last part of terminateTask by itself), connecting and accepting on
-- sockets, the commands server, init and res and the layout of what is printed, the log, signals and
-- daemonize, and the texts of error messages that the client keeps. The laws of json.hpp and of the
-- calendar hold for texts in UTF-8, for finite doubles and for the years that ISO 8601 writes with four
-- digits; what the program does on others is not modelled.
pub mod Prelude
pub mod Json
pub mod Config
pub mod Task
pub mod Queue
pub mod Monitor
pub mod Executor
pub mod Scheduler
pub mod Protocol
pub mod Ipc
pub mod Server
pub mod Wire
pub mod Cli
pub mod Tests
