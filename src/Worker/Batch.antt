-- ===== src/Worker/Batch.antt =====
-- Tasks of one activity that are fetched together do not start together.
use external_task_worker.Base.{List}
use external_task_worker.Messages.{CamundaExternalTask, TaskWithDuplicateIndex}
use external_task_worker.Worker.{count_activity}

-- the head of a batch, which gets its number from what was seen
abbrev numbered : List CamundaExternalTask → CamundaExternalTask → TaskWithDuplicateIndex
numbered seen x = record { task = x; duplicate_index = count_activity x.activity_id seen }
