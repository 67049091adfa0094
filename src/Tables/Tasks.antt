-- ===== src/Tables/Tasks.antt =====
-- pkg/messagix/table/task.go: the rows of tasks.
use meta_matrix_bridge.Prelude.{[], ◌∷◌}
use meta_matrix_bridge.Lightspeed.{Schema, int64_kind, string_kind, bool_kind}
use meta_matrix_bridge.Tables.{column, recorded}

abbrev pub ls_task_exists : Schema
ls_task_exists = recorded "LSTaskExists" (column "TaskId" int64_kind 0 ∷ [])

abbrev pub ls_remove_task : Schema
ls_remove_task = recorded "LSRemoveTask" (column "TaskId" int64_kind 0 ∷ [])

abbrev pub ls_update_task_queue_name : Schema
ls_update_task_queue_name =
    recorded "LSUpdateTaskQueueName"
      (column "QueueNameTaskId" string_kind 0 ∷ column "QueueName" string_kind 1 ∷ [])

abbrev pub ls_update_task_value : Schema
ls_update_task_value = recorded "LSUpdateTaskValue" (
    column "QueueNameTaskId" string_kind 0
    ∷ column "TaskValue1" string_kind 1
    ∷ column "TaskValue2" string_kind 2
    ∷ [])

abbrev pub ls_mailbox_task_completion_api_on_task_completion : Schema
ls_mailbox_task_completion_api_on_task_completion =
    recorded "LSMailboxTaskCompletionApiOnTaskCompletion"
      (column "TaskId" int64_kind 0 ∷ column "Success" bool_kind 1 ∷ [])

abbrev pub ls_issue_new_task : Schema
ls_issue_new_task = recorded "LSIssueNewTask" (
    column "QueueName" string_kind 0
    ∷ column "Context" int64_kind 1
    ∷ column "TaskValue" string_kind 2
    ∷ column "HttpUrlOverride" string_kind 3
    ∷ column "TimeoutTimestampMs" int64_kind 4
    ∷ column "PluginType" int64_kind 5
    ∷ column "Priority" int64_kind 6
    ∷ column "SyncGroupId" int64_kind 7
    ∷ column "TransportKey" int64_kind 8
    ∷ column "MinTimeToSyncTimestampMs" int64_kind 9
    ∷ [])
