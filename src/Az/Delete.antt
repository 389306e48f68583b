-- ===== src/Az/Delete.antt =====
-- The delete methods of internal/az/orchestrator/orchestrator.go.
use vpc_workflow_demo.Decimal.{itoa, pos}
use vpc_workflow_demo.World.{
  Result, Err, Exec, ok, raise, err, ◌>>=◌, ◌>>◌, ask, pure, fail, or_wrap, http_get, attempt,
}
use vpc_workflow_demo.Models.{VpcResource, is_running, ResourceStatus}
use vpc_workflow_demo.Prelude.{
  Option, Bool, String, ℕ, if◌then◌else◌, ◌=?◌, not, ◌+++◌, some, ltb, ◌==◌, none,
}
use vpc_workflow_demo.Dao.Vpc
use vpc_workflow_demo.Dao.Subnet
use vpc_workflow_demo.Dao.Pccn
use vpc_workflow_demo.Az.Orchestrator.{AzOrchestrator, or_missing}

abbrev pub count_or_zero : Option ℕ → Exec ℕ
count_or_zero none = raise (fail "policy-count body")
count_or_zero (some n) = pure n

abbrev vfw_addr : String → String → String
vfw_addr set az = if set =? "" then "http://az-nsp-vfw-" +++ (az +++ ":8080") else set

-- The count is 0 if the answer's status is not 200.
unfoldable pub check_zone_policies : AzOrchestrator → String → Exec ℕ
check_zone_policies o zone = do
  env ← ask
  let addr = vfw_addr (env.getenv "AZ_NSP_VFW_ADDR") o.az
  answer ← http_get (addr +++ ("/api/v1/firewall/zone/" +++ (zone +++ "/policy-count")))
  if answer.status_code == 200 then count_or_zero answer.count else pure 0

abbrev pub value_or {ℓ} : {A : Type ℓ} → A → Result A → A
value_or d (ok a) = a
value_or d (err _) = d

unfoldable pub guard : Bool → Err → Exec (Unit {0})
guard b x = if b then raise x else pure tt

-- The checks that both ways to delete a VPC make: its status, its subnets, the zone's policies. A
-- failed count of policies is logged and read as 0.
unfoldable pub check_deletable : AzOrchestrator → VpcResource → Exec ℕ → Exec (Unit {0})
unfolding guard
check_deletable o v count_subnets = do
  guard (not (is_running v.status)) (fail "VPC状态不是running，无法删除")
  subnets ← or_wrap "查询子网数量失败" count_subnets
  guard (ltb 0 subnets) (fail ("VPC下存在" +++ (itoa (pos subnets) +++ "个子网，无法删除")))
  policies ← attempt (check_zone_policies o v.attrs.firewall_zone)
  let count = value_or 0 policies
  guard (ltb 0 count) (
      fail (
        "Zone "
        +++ (v.attrs.firewall_zone +++ (" 中存在" +++ (itoa (pos count) +++ "条防火墙策略，无法删除VPC")))))

unfoldable pub delete_vpc : AzOrchestrator → String → Exec (Unit {0})
delete_vpc o vpc_name = do
  v ← or_missing ("VPC不存在: " +++ vpc_name) "查询VPC失败" (Vpc.get_by_name vpc_name o.az)
  check_deletable o v (Vpc.count_subnets vpc_name o.az)
  or_wrap "更新VPC状态失败" (Vpc.store.update_status v.id ResourceStatus.deleting "")

unfoldable pub delete_vpc_by_id : AzOrchestrator → String → Exec (Unit {0})
delete_vpc_by_id o vpc_id = do
  v ← or_missing ("VPC不存在: " +++ vpc_id) "查询VPC失败" (Vpc.get_by_id vpc_id)
  check_deletable o v (Vpc.count_subnets_by_vpc_id vpc_id)
  or_wrap "更新VPC状态失败" (Vpc.store.update_status vpc_id ResourceStatus.deleted "")

unfoldable pub delete_subnet : AzOrchestrator → String → Exec (Unit {0})
unfolding guard
delete_subnet o subnet_name = do
  s ← or_missing ("子网不存在: " +++ subnet_name) "查询子网失败" (Subnet.get_by_name subnet_name o.az)
  guard (not (is_running s.status)) (fail "子网状态不是running，无法删除")
  or_wrap "更新子网状态失败" (Subnet.store.update_status s.id ResourceStatus.deleting "")

unfoldable pub delete_subnet_by_id : AzOrchestrator → String → Exec (Unit {0})
unfolding guard
delete_subnet_by_id o subnet_id = do
  s ← or_missing ("子网不存在: " +++ subnet_id) "查询子网失败" (Subnet.get_by_id subnet_id)
  guard (not (is_running s.status)) (fail "子网状态不是running，无法删除")
  or_wrap "更新子网状态失败" (Subnet.store.update_status subnet_id ResourceStatus.deleted "")

unfoldable pub delete_pccn : AzOrchestrator → String → Exec (Unit {0})
unfolding guard
delete_pccn o pccn_name = do
  p ← or_missing ("PCCN不存在: " +++ pccn_name) "查询PCCN失败" (Pccn.get_by_name pccn_name o.az)
  guard (not (is_running p.status)) (fail "PCCN状态不是running，无法删除")
  or_wrap "更新PCCN状态失败" (Pccn.store.update_status p.id ResourceStatus.deleting "")
  or_wrap "删除PCCN记录失败" (Pccn.delete_by_name pccn_name o.az)
