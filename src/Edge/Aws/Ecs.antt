-- ===== src/Edge/Aws/Ecs.antt =====
-- internal/edge/awsexec/ecs_snapshot.go: the state of an ECS service. The answers of AWS are parameters,
-- and `none` stands for an error or an answer of nil.
pub mod Sorted
use skybridge.Prelude.{
  ℕ, zero, suc, ◌+◌, Bool, true, false, not, ◌&&◌, ◌||◌, Option, none, some, List, [], ◌∷◌, ◌++◌,
  map, Bytes, if◌then◌else◌, ltb, ◌==◌, length, take, drop, bytes_equal,
}
use skybridge.Prelude.Int.{ℤ, pos}
use skybridge.Prelude.Dict.{Dict}
use skybridge.Prelude.Text.{codes, Unicode, trim_space, has_prefix}
use skybridge.Edge.Dispatch.{
  Json, null, number, text, array, object, Items, no_items, item, members_of,
}
use skybridge.Edge.Aws.{Numbers, clip}
use skybridge.Edge.Aws.Metrics.{is_empty}

-- `<` on strings
unfoldable pub text_lt : Bytes → Bytes → Bool
text_lt s [] = false
text_lt [] (y ∷ t) = true
text_lt (x ∷ s) (y ∷ t) = ltb x y || x == y && text_lt s t

unfoldable pub insert_unique : Bytes → List Bytes → List Bytes
unfolding text_lt
insert_unique s [] = s ∷ []
insert_unique s (t ∷ ts) =
    let rest = insert_unique s ts in
    if text_lt s t then s ∷ t ∷ ts else if text_lt t s then t ∷ rest else t ∷ ts

-- The strings of a set in order, as `sort.Strings` leaves the keys of the map.
unfoldable pub sorted_unique : List Bytes → List Bytes
unfolding insert_unique
sorted_unique [] = []
sorted_unique (s ∷ ss) = insert_unique s (sorted_unique ss)

-- The text behind the first place where another one stands.
unfoldable pub after_text : Bytes → Bytes → Option Bytes
after_text p [] = if has_prefix [] p then some [] else none
after_text p (c ∷ s) =
    let rest = after_text p s in
    if has_prefix (c ∷ s) p then some (drop (length p) (c ∷ s)) else rest

unfoldable pub application_only : Bytes → Option Bytes
application_only dim = if has_prefix dim (codes "app/") then some dim else none

-- `none` for the empty string.
unfoldable pub alb_dimension_from_arn : Unicode → Bytes → Option Bytes
unfolding after_text application_only
alb_dimension_from_arn u lb_arn = elim (after_text (codes ":loadbalancer/") (trim_space u lb_arn)) [
  | none ↦ none
  | some rest ↦ application_only (trim_space u rest)
]

unfoldable pub dimensions_of : Unicode → List Bytes → List Bytes
unfolding alb_dimension_from_arn
dimensions_of u [] = []
dimensions_of u (arn ∷ arns) = elim (alb_dimension_from_arn u arn) [
  | none ↦ dimensions_of u arns
  | some dim ↦ dim ∷ dimensions_of u arns
]

-- `tgArns[i:end]` for i in steps of ten; as much fuel as there are items is enough.
unfoldable pub blocks_of : ℕ → List Bytes → List (List Bytes)
blocks_of zero arns = []
blocks_of (suc f) [] = []
blocks_of (suc f) (a ∷ arns) = take 10 (a ∷ arns) ∷ blocks_of f (drop 10 (a ∷ arns))

unfoldable pub all_of : List (List Bytes) → List Bytes
all_of [] = []
all_of (arns ∷ groups) = arns ++ all_of groups

-- The load balancers of the target groups that are described; a block without an answer is passed over.
unfoldable pub load_balancers :
    (List Bytes → Option (List (List Bytes))) → List (List Bytes) → List Bytes
unfolding all_of
load_balancers describe [] = []
load_balancers describe (block ∷ blocks) = elim (describe block) [
  | none ↦ load_balancers describe blocks
  | some groups ↦ all_of groups ++ load_balancers describe blocks
]

unfoldable pub trimmed_arns : Unicode → List Bytes → List Bytes
trimmed_arns u [] = []
trimmed_arns u (arn ∷ arns) =
    let rest = trimmed_arns u arns in
    if is_empty (trim_space u arn) then rest else trim_space u arn ∷ rest

-- `arns` are the target groups of the service's load balancers, the empty text for nil. `describe`
-- gives the load balancers of each of some target groups.
unfoldable pub alb_dimensions_from_service :
    Unicode → (List Bytes → Option (List (List Bytes))) → List Bytes → List Bytes
unfolding sorted_unique trimmed_arns load_balancers blocks_of dimensions_of
alb_dimensions_from_service u describe arns =
    let groups = sorted_unique (trimmed_arns u arns) in
    sorted_unique (dimensions_of u (load_balancers describe (blocks_of (length groups) groups)))

-- `arn[strings.LastIndex(arn, "/") + 1:]`, all of it where there is no slash.
unfoldable pub after_last_slash : Bytes → Option Bytes
after_last_slash [] = none
after_last_slash (c ∷ cs) = elim (after_last_slash cs) [
  | some rest ↦ some rest
  | none ↦ if c == b'/' then some cs else none
]

unfoldable pub task_id_of : Bytes → Bytes
unfolding after_last_slash
task_id_of arn = elim (after_last_slash arn) [ some rest ↦ rest | none ↦ arn ]

pub record Container : Type 0 where
  pub name : Bytes
  pub exit_code : Option ℤ
  pub reason : Bytes

-- `none` is an instant of nil, of any type.
pub record Task (T : Type 0) : Type 0 where
  pub task_arn : Bytes
  pub stopped_at : Option T
  pub stopped_reason : Bytes
  pub stop_code : Bytes
  pub containers : List Container

-- A row of the stopped tasks.
pub record Stopped : Type 0 where
  pub task_id : Bytes
  pub stopped_at : Bytes
  pub stopped_reason : Bytes
  pub stop_code : Bytes
  pub containers : List Container

unfoldable pub iso_time : {T : Type 0} → (T → Bytes) → Option T → Bytes
iso_time format none = []
iso_time format (some t) = format t

unfoldable pub clip_container : Container → Container
unfolding clip
clip_container c = record {
  name = c.name;
  exit_code = c.exit_code;
  reason = clip c.reason (pos 2000);
}

unfoldable pub stopped_row : {T : Type 0} → (T → Bytes) → Task T → Stopped
unfolding task_id_of iso_time clip_container clip
stopped_row format t = record {
  task_id = clip (task_id_of t.task_arn) (pos 128);
  stopped_at = iso_time format t.stopped_at;
  stopped_reason = clip t.stopped_reason (pos 2000);
  stop_code = clip t.stop_code (pos 128);
  containers = map clip_container t.containers;
}

-- Behind the rows that stopped later, in front of those that stopped at the same time.
unfoldable pub insert_stopped : Stopped → List Stopped → List Stopped
unfolding text_lt
insert_stopped s [] = s ∷ []
insert_stopped s (t ∷ ts) =
    let rest = insert_stopped s ts in
    if text_lt s.stopped_at t.stopped_at then t ∷ rest else s ∷ t ∷ ts

-- `sort.SliceStable`, the latest first.
unfoldable pub latest_first : List Stopped → List Stopped
unfolding insert_stopped
latest_first [] = []
latest_first (s ∷ ss) = insert_stopped s (latest_first ss)

unfoldable pub described_tasks :
    {T : Type 0} → (T → Bytes) → (List Bytes → Option (List (Task T))) → List Bytes → List Stopped
unfolding stopped_row latest_first
described_tasks format describe [] = []
described_tasks format describe (a ∷ arns) = elim (describe (take 10 (a ∷ arns))) [
  | none ↦ []
  | some tasks ↦ latest_first (map (stopped_row format) tasks)
]

-- `list` is the answer to ListTasks for at most eight stopped tasks of the service.
unfoldable pub recent_stopped_tasks :
    {T : Type 0}
    → (T → Bytes)
    → (List Bytes → Option (List (Task T)))
    → Option (List Bytes)
    → List Stopped
unfolding described_tasks
recent_stopped_tasks format describe none = []
recent_stopped_tasks format describe (some arns) = described_tasks format describe arns
