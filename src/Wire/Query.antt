-- ===== src/Wire/Query.antt =====
-- IPCClient::queryQueue with the server's handleQueryQueue at the other end.
use myqueue.Prelude.{Bool, true, false, map, All}
use myqueue.Json.{Json}
use myqueue.Config.{Config}
use myqueue.Protocol.{query_queue_message, query_queue_all_message, MsgType}
use myqueue.Protocol.Responses.Tasks.{QueueResponse}
use myqueue.Protocol.Responses.Tasks.RoundTrip.{received, InRange}

-- The message that asks for the queue.
abbrev pub query_message : Bool → MsgType
query_message true = query_queue_all_message
query_message false = query_queue_message

-- Every entry has its numbers in the range of their C++ types.
pub record AllInRange (resp : QueueResponse) : Type 0 where
  pub running : All InRange resp.running
  pub pending : All InRange resp.pending
  pub completed : All InRange resp.completed

abbrev pub received_all : QueueResponse → QueueResponse
received_all resp = record {
  running = map received resp.running;
  pending = map received resp.pending;
  completed = map received resp.completed;
}
