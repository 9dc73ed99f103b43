-- ===== src/Tests/Listings.antt =====
-- The theorems on the queries of the server, applied.
use myqueue.Prelude.{◌↔◌, true, Mem}
use myqueue.Protocol.Responses.Tasks.{TaskInfo}
use myqueue.Server.Histories.{run-Balanced, Fresh-Balanced}
use myqueue.Server.Queries.{handle_query_queue, running_info}
use myqueue.Server.Queries.Entries.{RunningEntry, PendingEntry, OverEntry}
use myqueue.Server.Queries.Listing.{Shows, handle_query_queue_lem}
use myqueue.Tests.Worlds.{
  small_env, small_system, small_IsShuffle, sort_tasks-IsSort, all_directories,
}
use myqueue.Tests.Runs.{two_tasks, after_two, first_task, two_started, small_Fresh}

abbrev first_info : TaskInfo
first_info = running_info after_two.now first_task

handle_query_queue_lem_example :
    let resp = handle_query_queue small_env after_two true in
    (Mem first_info resp.running ↔ Shows after_two.queue (RunningEntry after_two.now) first_info)
    × ((Mem first_info resp.pending ↔ Shows after_two.queue PendingEntry first_info)
        × (Mem first_info resp.completed ↔ Shows after_two.queue OverEntry first_info))
handle_query_queue_lem_example =
    handle_query_queue_lem small_env after_two first_info sort_tasks-IsSort
      (run-Balanced small_env all_directories small_IsShuffle sort_tasks-IsSort small_system
        two_tasks two_started.1.1.1.1.1.1 (Fresh-Balanced small_system small_Fresh)).valid
