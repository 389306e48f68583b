-- ===== src/Top/Orchestrator/Reads.antt =====
-- What the reads and the calls of internal/top/orchestrator/orchestrator.go keep: everything that does not
-- depend on the number of calls.
use vpc_workflow_demo.Prelude.{String, List, [], ◌∷◌, Option, none, some}
use vpc_workflow_demo.Top.World.{Top, Az, AzDetail, SagaDef, db_query, now}
use vpc_workflow_demo.Top.Rules.{
  Keeps, IsStable, Keeps-pure, Keeps-query, Keeps-raise, Keeps-or_wrap, Keeps-call, Keeps-attempt,
  Keeps-bind, Keeps-if,
}
use vpc_workflow_demo.Top.Vpc.{get_vpc_by_name}
use vpc_workflow_demo.Top.Pccn.{get_pccn_by_name}
use vpc_workflow_demo.Top.Registry.{
  redis_get, redis_smembers, found_az, get_az, get_azs, azs_of, get_region_azs, check_az_health,
}
use vpc_workflow_demo.Top.Orchestrator.{check_zones, submit_saga, zones_of}

module _ {P : Top → Type 0} (s : IsStable P) where
  pub Keeps-get_vpc_by_name : (name : String) → Keeps P (get_vpc_by_name name)
  unfolding get_vpc_by_name
  Keeps-get_vpc_by_name name = Keeps-query s _

  pub Keeps-get_pccn_by_name : (name : String) → Keeps P (get_pccn_by_name name)
  unfolding get_pccn_by_name
  Keeps-get_pccn_by_name name = Keeps-query s _

  redis_get-Keeps : (k : String) → Keeps P (redis_get k)
  unfolding redis_get db_query
  redis_get-Keeps k = record { at = λ e w p. s.stable w p }

  found_az-Keeps : (region id : String) (o : Option Az) → Keeps P (found_az region id o)
  unfolding found_az
  found_az-Keeps region id none = Keeps-raise _
  found_az-Keeps region id (some az) = Keeps-pure _

  pub Keeps-get_az : (region id : String) → Keeps P (get_az region id)
  unfolding get_az
  Keeps-get_az region id =
      Keeps-bind _ _ (Keeps-or_wrap _ _ (redis_get-Keeps _)) (λ o. found_az-Keeps region id o)

  get_azs-Keeps : (region : String) (ids : List String) → Keeps P (get_azs region ids)
  unfolding get_azs
  get_azs-Keeps region [] = Keeps-pure _
  get_azs-Keeps region (id ∷ ids) =
      Keeps-bind _ _ (Keeps-attempt _ (Keeps-get_az region id))
        (λ r. Keeps-bind _ _ (get_azs-Keeps region ids) (λ azs. Keeps-pure _))

  azs_of-Keeps : (region : String) (ids : List String) → Keeps P (azs_of region ids)
  unfolding azs_of
  azs_of-Keeps region [] = Keeps-raise _
  azs_of-Keeps region (id ∷ ids) = get_azs-Keeps region (id ∷ ids)

  pub Keeps-get_region_azs : (region : String) → Keeps P (get_region_azs region)
  unfolding get_region_azs redis_smembers
  Keeps-get_region_azs region =
      Keeps-bind _ _ (Keeps-or_wrap _ _ (Keeps-query s _)) (λ ids. azs_of-Keeps region ids)

  now-Keeps : Keeps P now
  unfolding now
  now-Keeps = record { at = λ e w p. p }

  pub Keeps-check_az_health : (region id : String) → Keeps P (check_az_health region id)
  unfolding check_az_health
  Keeps-check_az_health region id =
      Keeps-bind _ _ (Keeps-get_az region id)
        (λ az. Keeps-bind _ _ now-Keeps (λ t. Keeps-if _ _ _ (Keeps-pure _) (Keeps-pure _)))

  pub Keeps-check_zones : (text : Az → String) (azs : List Az) → Keeps P (check_zones text azs)
  unfolding check_zones
  Keeps-check_zones text [] = Keeps-pure _
  Keeps-check_zones text (z ∷ zs) = Keeps-bind _ _ (Keeps-call s _) (λ _. Keeps-check_zones text zs)

  pub Keeps-submit_saga : (t u : String) (d : SagaDef) → Keeps P (submit_saga t u d)
  unfolding submit_saga
  Keeps-submit_saga t u d =
      Keeps-bind _ _ (Keeps-or_wrap _ _ (Keeps-call s _)) (λ _. Keeps-or_wrap _ _ (Keeps-call s _))

  pub Keeps-zones_of :
      (region : String) (ds : List (String × AzDetail)) → Keeps P (zones_of region ds)
  unfolding zones_of
  Keeps-zones_of region [] = Keeps-pure _
  Keeps-zones_of region ((id, d) ∷ ds) =
      Keeps-bind _ _ (Keeps-attempt _ (Keeps-get_az region id))
        (λ r. Keeps-bind _ _ (Keeps-zones_of region ds) (λ azs. Keeps-pure _))
