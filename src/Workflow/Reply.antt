-- ===== src/Workflow/Reply.antt =====
-- `HandleReply` of internal/orchestration/workflow.go.
use vpc_workflow_demo.Decimal.{pos, int_eq, int_pred, int_succ}
use vpc_workflow_demo.Models.{Task, TaskStatus, ResourceStatus, is_settled}
use vpc_workflow_demo.Prelude.{Option, if◌then◌else◌, not, false, ◌+++◌, some, none}
use vpc_workflow_demo.World.{
  Result, Payload, ReplyPayload, Message, Exec, ReplyStatus, params, ok, raise, ◌>>◌, fail, or_wrap,
  reply, garbage, err, ◌>>=◌, pure,
}
use vpc_workflow_demo.Dao.Tasks
use vpc_workflow_demo.Dao.Table.{ResourceStore}
use vpc_workflow_demo.Workflow.Manager.{
  Manager, StepContext, metadata_context, publish_task, resource_store,
}

-- `json.Unmarshal` into a `ReplyPayload`: an object without its keys gives the zero reply.
unfoldable pub decode_reply : Payload → Result ReplyPayload
decode_reply (params _) = ok (record {
  task_type = "";
  resource_id = "";
  resource_type = "";
  step_index = pos 0;
  total_steps = pos 0;
  retry_count = 0;
  max_retries = 0;
  final_failure = false;
  status = ReplyStatus.other "";
  result = "";
  error = "";
})
decode_reply (reply r) = ok r
decode_reply (garbage s) = err (fail ("解析reply payload失败: " +++ s))

unfoldable pub publish_next : Manager → StepContext → Option Task → Exec (Unit {0})
publish_next m c none = raise (fail ("资源 " +++ (c.resource_id +++ " 没有可推进的下一个step")))
publish_next m c (some t) = or_wrap "发布下一个step失败" (publish_task m t c.total_steps)

unfoldable pub on_success :
    Manager → ResourceStore → StepContext → Task → ReplyPayload → Exec (Unit {0})
unfolding publish_next
on_success m s c t r = do
  or_wrap "更新任务完成状态失败" (Tasks.update_result t.id TaskStatus.completed r.result "")
  or_wrap "更新完成任务计数失败" (s.increment_completed_tasks c.resource_id)
  if int_eq c.step_index (int_pred c.total_steps)
      then or_wrap "更新资源running状态失败" (s.update_status c.resource_id ResourceStatus.running "")
      else do
        next ← or_wrap "查询下一个step失败" (Tasks.get_next_pending_task c.resource_id)
        publish_next m c next

unfoldable pub on_failure : ResourceStore → StepContext → Task → ReplyPayload → Exec (Unit {0})
on_failure s c t r =
    if not r.final_failure
    then or_wrap "更新任务重试进度失败" (Tasks.update_retry_progress t.id r.retry_count r.max_retries r.error)
    else do
      or_wrap "更新任务失败状态失败" (Tasks.update_result t.id TaskStatus.failed "" r.error)
      or_wrap "更新失败任务计数失败" (s.increment_failed_tasks c.resource_id)
      or_wrap "更新资源failed状态失败" (s.update_status c.resource_id ResourceStatus.failed r.error)

unfoldable pub on_status :
    Manager → ResourceStore → StepContext → Task → ReplyPayload → ReplyStatus → Exec (Unit {0})
unfolding on_success on_failure
on_status m s c t r ReplyStatus.success = on_success m s c t r
on_status m s c t r ReplyStatus.failed = on_failure s c t r
on_status m s c t r (ReplyStatus.other x) = raise (fail ("未知reply状态: " +++ x))

unfoldable pub with_store :
    Manager → StepContext → ReplyPayload → Option ResourceStore → Exec (Unit {0})
unfolding on_status
with_store m c r none = raise (fail ("resource store未注册: " +++ c.resource_type))
with_store m c r (some s) = do
  t ← or_wrap "查询当前step失败" (Tasks.get_by_resource_and_order c.resource_id (int_succ c.step_index))
  if is_settled t.status then pure tt else on_status m s c t r r.status

abbrev pub lift {ℓ} : {A : Type ℓ} → Result A → Exec A
lift r e w = (r, w)

unfoldable pub handle_reply : Manager → Option Message → Exec (Unit {0})
unfolding with_store resource_store
handle_reply m none = raise (fail "reply task不能为空")
handle_reply m (some msg) = do
  r ← lift (decode_reply msg.payload)
  c ← lift (metadata_context msg.metadata)
  with_store m c r (resource_store m c.resource_type)
