-- ===== src/JobQueue/Queue.antt =====
-- backend/src/job_queue.rs: the table of queued jobs, its replay, and what a request hands to the worker.
-- `payload` and `read` are serde's conversions of a job to JSON and back, as the derived code makes them.
use mcp_host.Prelude.{
  ℕ, Bool, Option, none, some, List, [], ◌∷◌, ◌++◌, String, Value, ◌==◌, str_eq, ltb, not, select,
  order_by, update_where,
}
use mcp_host.JobQueue.{Job, World}

pub record QueueRow : Type 0 where
  pub id : ℕ
  pub payload : Value
  pub status : String

-- The database's queue, the channel of jobs that were sent and not yet received, and the worker's world.
pub record Site : Type 0 where
  pub world : World
  pub queue : List QueueRow
  pub channel : List Job

abbrev pub queued_row : (next_id : ℕ) → Value → QueueRow
queued_row next_id payload = record { id = next_id; payload = payload; status = "queued" }

abbrev pub send : Job → Site → Site
send job s = record s { channel = s.channel ++ job ∷ [] }

module _ (payload : Job → Value) where
  unfoldable pub enqueue_job : (next_id : ℕ) → Job → Site → Site
  enqueue_job next_id job s = record s { queue = s.queue ++ queued_row next_id (payload job) ∷ [] }

  -- `enqueue_job(&pool, &job)` and `job_tx.send(job)`
  abbrev pub submit : (next_id : ℕ) → Job → Site → Site
  submit next_id job s = send job (enqueue_job next_id job s)

abbrev pub is_queued : QueueRow → Bool
is_queued r = str_eq r.status "queued"

abbrev pub mark_processing : ℕ → Site → Site
mark_processing id s = record s {
  queue = update_where (λ r. r.id == id) (λ r. record r { status = "processing" }) s.queue;
}

abbrev pub delete_row : ℕ → Site → Site
delete_row id s = record s { queue = select (λ r. not (r.id == id)) s.queue }

module _ (read : Value → Option Job) where
  -- One round of the replay's loop, given what its payload reads as.
  abbrev pub replay_job : Option Job → QueueRow → Site → Site
  replay_job none row s = s
  replay_job (some job) row s = delete_row row.id (send job (mark_processing row.id s))

  abbrev pub replay_rows : List QueueRow → Site → Site
  replay_rows [] s = s
  replay_rows (r ∷ rs) s = replay_rows rs (replay_job (read r.payload) r s)

  -- A pass of the replay, between two sleeps
  unfoldable pub replay : Site → Site
  replay s = replay_rows (order_by (λ a b. ltb a.id b.id) (select is_queued s.queue)) s
