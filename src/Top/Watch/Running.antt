-- ===== src/Top/Watch/Running.antt =====
-- A tick of the polls of internal/top/orchestrator/orchestrator.go at which every zone runs.
use vpc_workflow_demo.Prelude.{
  ℕ, ap, sym, map, ◌||◌, ◌≡◌, ◌∙◌, refl, String, true, false, some, List, [], ◌∷◌, ◌=?◌, Bool-cases,
  inl, inr, text_eq_refl, All, find_where, update_where, find_where-update_where, arith, ◌+◌,
}
use vpc_workflow_demo.Models.{ResourceStatus}
use vpc_workflow_demo.World.{Result, ok}
use vpc_workflow_demo.Top.World.{
  Top, TopEnv, IsCalm, Az, AzDetail, Event, VpcRegistry, ZoneStatus, asked, attempt, ignore, pure,
  db_query, query_unless, db_exec, exec_unless, set_key,
}
use vpc_workflow_demo.Top.Status.{compute_overall_status, overall_of}
use vpc_workflow_demo.Top.Status.Spec.{Details, all_running, note_all-Noted}
use vpc_workflow_demo.Top.Vpc.{named, one, set_overall, update_vpc_overall_status, get_vpc_by_name}
use vpc_workflow_demo.Top.Watch.{
  Round, ask_zones, zone_answer, settle, member, mark_all, merge, detail, save_answer,
  change_details, save_found, poll_az_worker_statuses,
}
use vpc_workflow_demo.Top.Watch.Merged.{
  has, once, covered, has-set_key, once-set_key, all_plain-set_key, covered-put, all_plain-merge,
  all_plain, is_plain, plain-running, keys, with_key, keys-set_key, keys-merge, all_plain_unique,
}

-- Every zone answers that the VPC runs, whenever it is asked.
pub record IsRunning (name : String) (e : TopEnv) : Type 0 where
  pub answer : (n : ℕ) (addr : String) → ZoneStatus
  pub answers : (n : ℕ) (addr : String) → e.vpc_status n addr name ≡ ok (answer n addr)
  pub runs : (n : ℕ) (addr : String) → (answer n addr).status ≡ ResourceStatus.running

abbrev ids : List Az → List String
ids zs = map (λ z. z.id) zs

-- A round that has found all zones running.
record Found (zs : List Az) (r : Round) (w : Top) (x : Result Round × Top) : Type 0 where
  out : Round
  result : x.0 ≡ ok out
  done : out.all_settled ≡ true
  good : all_plain out.details ≡ true
  kept : x.1.vpcs ≡ w.vpcs
  still : (j : String) → has j r.details ≡ true → has j out.details ≡ true
  each : All (λ z. has z.id out.details ≡ true) zs
  only : (j : String) → has j out.details ≡ true → (has j r.details || member j (ids zs)) ≡ true

has_self : (k : String) (d : AzDetail) (m : Details) → has k (set_key k d m) ≡ true
has_self k d m = rw (has-set_key k k d m, text_eq_refl k) refl

-- What is settled has a detail, also after one more zone.
known_after :
    (k : String) (d : AzDetail) (m : Details) (l : List String)
    → ((j : String) → member j l ≡ true → has j m ≡ true)
    → (j : String) → member j (k ∷ l) ≡ true
    → has j (set_key k d m) ≡ true
known_after k d m l known j h = elim (Bool-cases (k =? j)) [
  | inl t ↦ rw (has-set_key j k d m, t) refl
  | inr f ↦
      let old = known j (ground (arith, h, f)) in rw (has-set_key j k d m) (ground (arith, old))
]

module _ (name : String) (e : TopEnv) (run : IsRunning name e) where
  ask_zones-Found :
      (zs : List Az) (r : Round) (w : Top)
      → r.all_settled ≡ true
      → all_plain r.details ≡ true
      → ((j : String) → member j r.settled ≡ true → has j r.details ≡ true)
      → Found zs r w (ask_zones name zs r e w)
  unfolding ask_zones zone_answer asked pure
  ask_zones-Found [] r w done good known = record {
    out = r;
    result = refl;
    done = done;
    good = good;
    kept = refl;
    still = λ j h. h;
    each = tt;
    only = λ j h. ground (arith, h);
  }
  ask_zones-Found (z ∷ zs) r w done good known = elim (Bool-cases (member z.id r.settled)) [
    | inl t ↦
        let rest = ask_zones-Found zs r w done good known in
        rw t (record {
          out = rest.out;
          result = rest.result;
          done = rest.done;
          good = rest.good;
          kept = rest.kept;
          still = rest.still;
          each = (rest.still z.id (known z.id t), rest.each);
          only = λ j h. ground (arith, rest.only j h);
        })
    | inr f ↦
        let d : AzDetail = detail "running" "" in
        let wider : (j : String)
            → has j r.details ≡ true
            → has j (set_key z.id d r.details) ≡ true =
          λ j h. rw (has-set_key j z.id d r.details) (ground (arith, h)) in
        let narrow : (j : String)
            → (has j (set_key z.id d r.details) || member j (ids zs)) ≡ true
            → (has j r.details || member j (ids (z ∷ zs))) ≡ true =
          λ j h. let eq = has-set_key j z.id d r.details in ground (arith, eq, h) in
        let rest =
          ask_zones-Found zs (settle z d r) (record w { calls = w.calls + 1 }) done
            (all_plain-set_key z.id d r.details refl good)
            (known_after z.id d r.details r.settled known) in
        rw (f, run.answers w.calls z.nsp_addr, run.runs w.calls z.nsp_addr)
          (record {
            out = rest.out;
            result = rest.result;
            done = rest.done;
            good = rest.good;
            kept = rest.kept;
            still = λ j h. rest.still j (wider j h);
            each = (rest.still z.id (has_self z.id d r.details), rest.each);
            only = λ j h. narrow j (rest.only j h);
          })
  ]

once-mark_all :
    (d : AzDetail) (zs : List Az) (m : Details) → once m ≡ true → once (mark_all d zs m) ≡ true
unfolding mark_all
once-mark_all d [] m h = h
once-mark_all d (z ∷ zs) m h = once-mark_all d zs _ (once-set_key z.id d m h)

covered-mark_all :
    (d : AzDetail) (ds : Details) (zs : List Az) (m : Details)
    → All (λ z. has z.id ds ≡ true) zs
    → covered ds m ≡ true
    → covered ds (mark_all d zs m) ≡ true
unfolding mark_all
covered-mark_all d ds [] m each h = h
covered-mark_all d ds (z ∷ zs) m each h =
    covered-mark_all d ds zs _ each.1 (covered-put z.id d ds m each.0 h)

all_plain-mark_all :
    (d : AzDetail) (zs : List Az) (m : Details)
    → is_plain d ≡ true
    → all_plain m ≡ true
    → all_plain (mark_all d zs m) ≡ true
unfolding mark_all
all_plain-mark_all d [] m p h = h
all_plain-mark_all d (z ∷ zs) m p h = all_plain-mark_all d zs _ p (all_plain-set_key z.id d m p h)

-- The keys do not depend on what is written.
keys-mark_all :
    (c d : AzDetail) (zs : List Az) (m n : Details)
    → keys m ≡ keys n
    → keys (mark_all c zs m) ≡ keys (mark_all d zs n)
unfolding mark_all
keys-mark_all c d [] m n h = h
keys-mark_all c d (z ∷ zs) m n h =
    keys-mark_all c d zs _ _
      (keys-set_key z.id c m ∙ ap (λ l. with_key z.id l) h ∙ sym (keys-set_key z.id d n))

has-mark_all :
    (d : AzDetail) (zs : List Az) (m : Details) (j : String)
    → (has j m || member j (ids zs)) ≡ true
    → has j (mark_all d zs m) ≡ true
unfolding mark_all
has-mark_all d [] m j h = ground (arith, h)
has-mark_all d (z ∷ zs) m j h =
    has-mark_all d zs (set_key z.id d m) j
      (let eq = has-set_key j z.id d m in ground (arith, eq, h))

overall-running : (m : Details) → all_running m ≡ true → compute_overall_status m ≡ "running"
unfolding compute_overall_status overall_of
overall-running m h =
    let noted = note_all-Noted m (record {
      has_failed = false;
      has_creating = false;
      has_interrupted = false;
      all_running = true;
    }) in
    rw (noted.running, h) refl

save_found-some :
    (name : String) (j : String) (ds : Details)
    → has j ds ≡ true
    → save_found name ds ≡ change_details name (merge ds)
unfolding save_found
save_found-some name j [] h = absurd (ground (arith, h))
save_found-some name j (d ∷ ds) h = refl

-- If no statement fails, and a VPC has been registered with every zone as `creating`, and every zone
-- answers that the VPC runs, then the first tick of the polls ends them, and leaves the VPC `running`,
-- with exactly the details of a running zone for each of the zones.
pub poll_az_worker_statuses-running :
    (es : List Event) (name : String) (z : Az) (zs : List Az) (e : TopEnv) (w : Top)
    (v : VpcRegistry)
    → IsCalm e
    → IsRunning name e
    → find_where (named name) w.vpcs ≡ some v
    → v.az_details ≡ mark_all (detail "creating" "") (z ∷ zs) []
    → ((poll_az_worker_statuses (Event.ticked ∷ es) name (z ∷ zs) [] e w).0 ≡ ok true)
      × ((x : VpcRegistry) × (find_where
              (named name)
              (poll_az_worker_statuses (Event.ticked ∷ es) name (z ∷ zs) [] e w).1.vpcs
            ≡ some x)
          × (x.status ≡ "running")
          × (x.az_details ≡ mark_all (detail "running" "") (z ∷ zs) []))
unfolding poll_az_worker_statuses change_details save_answer get_vpc_by_name
    update_vpc_overall_status set_overall one attempt ignore pure db_query query_unless db_exec
    exec_unless
poll_az_worker_statuses-running es name z zs e w v calm run found details =
    let start : Round = record { settled = []; details = []; all_settled = true } in
    let f = ask_zones-Found name e run (z ∷ zs) start w refl refl (λ j h. h) in
    let first = detail "creating" "" in
    let last = detail "running" "" in
    let new = merge f.out.details v.az_details in
    let once_v : once v.az_details ≡ true = rw details (once-mark_all first (z ∷ zs) [] refl) in
    let covered_v : covered f.out.details v.az_details ≡ true =
      rw details (covered-mark_all first f.out.details (z ∷ zs) [] f.each refl) in
    let runs = all_plain-merge f.out.details v.az_details f.good once_v covered_v in
    let over : (j : String) → has j f.out.details ≡ true → has j v.az_details ≡ true =
      λ j h. rw details (has-mark_all first (z ∷ zs) [] j (f.only j h)) in
    let same_keys : keys new ≡ keys (mark_all last (z ∷ zs) []) =
      keys-merge f.out.details v.az_details over
      ∙ ap (λ m. keys m) details
      ∙ keys-mark_all first last (z ∷ zs) [] [] refl in
    let exact : new ≡ mark_all last (z ∷ zs) [] =
      all_plain_unique new _ runs (all_plain-mark_all last (z ∷ zs) [] refl refl) same_keys in
    let end = (ask_zones name (z ∷ zs) start e w).1 in
    let written = set_overall (e.clock (end.calls + 1)) (compute_overall_status new) new in
    let row : find_where (named name) (update_where (named name) written w.vpcs)
        ≡ some (written v) =
      find_where-update_where (named name) (named name) written (λ x i. named name x) w.vpcs
      ∙ rw found refl in
    rw
      (
        f.result,
        save_found-some name z.id f.out.details f.each.0,
        f.done,
        calm.no_fault,
        f.kept,
        found,
        calm.no_fault,
      )
      (refl, (written v, row, overall-running new (plain-running new runs), exact))
