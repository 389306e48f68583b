-- ===== src/Top/Orchestrator.antt =====
-- What the methods of internal/top/orchestrator/orchestrator.go share: their answers, the work that they
-- leave to a goroutine, the checks of the zones, and the submission of a saga.
pub mod Reads
pub mod Refused
use vpc_workflow_demo.Prelude.{
  String, Bool, Option, none, some, List, [], ◌∷◌, ◌++◌, if◌then◌else◌, false,
}
use vpc_workflow_demo.Models.{VpcRef, CreateResponse}
use vpc_workflow_demo.World.{Result, ok, err, Err, fail, external, error_text}
use vpc_workflow_demo.Top.World.{
  Act, Az, AzDetail, Event, SagaDef, attempt, call, pure, or_wrap, ◌>>=◌, ◌>>◌,
}
use vpc_workflow_demo.Top.Watch.{watch_saga_and_poll_azs, member}
use vpc_workflow_demo.Top.PccnWatch.{watch_pccn_saga_and_poll_azs, watch_pccn_deletion}
use vpc_workflow_demo.Top.Registry.{get_az, with_az}

-- The call that a method hands to a goroutine.
pub data Job : Type 0 where
  watch_vpc : String → String → List Az → Job
  watch_pccn : String → String → List Az → VpcRef → VpcRef → Job
  watch_deletion : String → String → Job

-- What becomes of a goroutine when its loops wake up for these events.
unfoldable pub run_job : List Event → List Event → Job → Act Bool
unfolding watch_saga_and_poll_azs watch_pccn_saga_and_poll_azs watch_pccn_deletion
run_job es fs (Job.watch_vpc tx name azs) = watch_saga_and_poll_azs es fs tx name azs
run_job es fs (Job.watch_pccn tx name azs vpc1 vpc2) =
    watch_pccn_saga_and_poll_azs es fs tx name azs vpc1 vpc2
run_job es fs (Job.watch_deletion tx name) = watch_pccn_deletion es tx name

-- The response, and the goroutine that is started.
pub record Answer : Type 0 where
  pub response : CreateResponse
  pub background : Option Job

abbrev pub refusal : String → Answer
refusal s = record {
  response = record { success = false; message = s; id = ""; workflow_id = "" };
  background = none;
}

abbrev pub answer_of : Result Answer → Answer
answer_of (ok a) = a
answer_of (err x) = refusal (error_text x)

-- An error becomes a response without success, and the method answers no error.
unfoldable pub respond : Act Answer → Act Answer
respond m = do r ← attempt m; pure (answer_of r)

abbrev pub top_nsp_access_key : String
top_nsp_access_key = "top-nsp"

abbrev pub health_of : Option String → Err → Result (Unit {0})
health_of none x = ok tt
health_of (some _) x = err x

-- The zones are asked in turn; the first that is not healthy ends the method.
unfoldable pub check_zones : (Az → String) → List Az → Act (Unit {0})
check_zones text [] = pure tt
check_zones text (z ∷ zs) =
    call (λ e n. health_of (e.health_check n z.nsp_addr) (fail (text z))) >>= λ _.
    check_zones text zs

abbrev pub built : Option String → SagaDef → Result SagaDef
built none d = ok d
built (some s) d = err (external s)

-- `Build`, with the text for its error, and `Submit`, with that for its own.
unfoldable pub submit_saga : String → String → SagaDef → Act String
submit_saga build_text submit_text d = do
  or_wrap build_text (call (λ e n. built (e.saga_build d) d))
  or_wrap submit_text (call (λ e n. e.saga_submit n d))

-- The zones of a list of names that the registry can read.
unfoldable pub zones_of : String → List (String × AzDetail) → Act (List Az)
zones_of region [] = pure []
zones_of region ((id, d) ∷ ds) = do
  r ← attempt (get_az region id)
  azs ← zones_of region ds
  pure (with_az r azs)

unfoldable pub add_new : List String → List Az → List Az
add_new seen [] = []
add_new seen (z ∷ zs) =
    let skipped = add_new seen zs in
    let kept = add_new (z.id ∷ seen) zs in if member z.id seen then skipped else z ∷ kept

-- The zones of both lists, each once.
unfoldable pub all_zones : List Az → List Az → List Az
unfolding add_new
all_zones zs ys = add_new [] (zs ++ ys)
