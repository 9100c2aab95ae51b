-- ===== src/Edge/Aws/Snapshot.antt =====
-- internal/edge/awsexec/ecs_snapshot.go: the snapshot of an ECS service as the caller reads it.
use skybridge.Prelude.{◌||◌, Option, none, some, List, [], ◌∷◌, map, Bytes, if◌then◌else◌, take}
use skybridge.Prelude.Int.{ℤ, pos}
use skybridge.Prelude.Dict.{Dict}
use skybridge.Prelude.Text.{codes, Unicode, trim_space}
use skybridge.Edge.Dispatch.{
  Json, null, number, text, array, object, Items, no_items, item, members_of,
}
use skybridge.Edge.Aws.{Numbers, clip}
use skybridge.Edge.Aws.Metrics.{is_empty}
use skybridge.Edge.Aws.Ecs.{
  Container, Task, Stopped, iso_time, alb_dimensions_from_service, recent_stopped_tasks,
}

pub record Deployment : Type 0 where
  pub status : Bytes
  pub rollout_state : Bytes
  pub desired : ℤ
  pub running : ℤ
  pub pending : ℤ
  pub failed_tasks : ℤ

pub record Event (T : Type 0) : Type 0 where
  pub created_at : Option T
  pub message : Bytes

pub record Service (T : Type 0) : Type 0 where
  pub running : ℤ
  pub desired : ℤ
  pub pending : ℤ
  pub status : Bytes
  pub deployments : List Deployment
  pub events : List (Event T)
  pub target_group_arns : List Bytes

-- The answers of ECS and of the load balancers; `none` stands for an error or an answer of nil.
pub record EcsApi (T : Type 0) : Type 0 where
  pub format : T → Bytes
  pub describe_services : Bytes → Bytes → Option (List (Service T))
  pub list_tasks : Bytes → Bytes → Option (List Bytes)
  pub describe_tasks : Bytes → List Bytes → Option (List (Task T))
  pub describe_target_groups : List Bytes → Option (List (List Bytes))

module _ (n : Numbers) where
  abbrev whole : ℤ → Json n.Number
  whole v = number (n.of_int v)

  unfoldable pub items_of : List (Dict (Json n.Number)) → Items n.Number
  unfolding members_of
  items_of [] = no_items
  items_of (m ∷ ms) = item (object (members_of m)) (items_of ms)

  unfoldable pub texts_array : List Bytes → Items n.Number
  texts_array [] = no_items
  texts_array (t ∷ ts) = item (text t) (texts_array ts)

  unfoldable pub deployment_row : Deployment → Dict (Json n.Number)
  deployment_row d =
      (codes "status", text d.status)
      ∷ (codes "rollout_state", text d.rollout_state)
      ∷ (codes "desired", whole d.desired)
      ∷ (codes "running", whole d.running)
      ∷ (codes "pending", whole d.pending)
      ∷ (codes "failed_tasks", whole d.failed_tasks)
      ∷ []

  unfoldable pub exit_value : Option ℤ → Json n.Number
  exit_value none = null
  exit_value (some code) = whole code

  unfoldable pub container_row : Container → Dict (Json n.Number)
  unfolding exit_value
  container_row c =
      (codes "name", text c.name)
      ∷ (codes "exit_code", exit_value c.exit_code)
      ∷ (codes "reason", text c.reason)
      ∷ []

  unfoldable pub task_row : Stopped → Dict (Json n.Number)
  unfolding container_row items_of
  task_row t =
      (codes "task_id", text t.task_id)
      ∷ (codes "stopped_at", text t.stopped_at)
      ∷ (codes "stopped_reason", text t.stopped_reason)
      ∷ (codes "stop_code", text t.stop_code)
      ∷ (codes "containers", array (items_of (map container_row t.containers)))
      ∷ []

  module _ {T : Type 0} (api : EcsApi T) where
    unfoldable pub event_row : Event T → Dict (Json n.Number)
    unfolding iso_time clip
    event_row ev =
        (codes "created_at", text (iso_time api.format ev.created_at))
        ∷ (codes "message", text (clip ev.message (pos 2000)))
        ∷ []

    unfoldable pub service_snapshot : Unicode → Bytes → Bytes → Service T → Dict (Json n.Number)
    unfolding alb_dimensions_from_service recent_stopped_tasks deployment_row event_row task_row
        items_of texts_array
    service_snapshot u cluster service s =
        (codes "running", whole s.running)
        ∷ (codes "desired", whole s.desired)
        ∷ (codes "pending", whole s.pending)
        ∷ (codes "service_status", text s.status)
        ∷ (codes "deployments", array (items_of (map deployment_row s.deployments)))
        ∷ (codes "events", array (items_of (map event_row (take 18 s.events))))
        ∷ (
          codes "recent_stopped_tasks",
          array (
              items_of (
                map task_row (
                  recent_stopped_tasks api.format (api.describe_tasks cluster)
                    (api.list_tasks cluster service)))),
        )
        ∷ (
          codes "alb_load_balancer_dimensions",
          array (
              texts_array
                (alb_dimensions_from_service u api.describe_target_groups s.target_group_arns)),
        )
        ∷ []

    unfoldable pub first_service :
        Unicode → Bytes → Bytes → Option (List (Service T)) → Option (Dict (Json n.Number))
    unfolding service_snapshot
    first_service u cluster service (some (s ∷ rest)) = some (service_snapshot u cluster service s)
    first_service u cluster service _ = none

    unfoldable pub run_ecs_service_snapshot :
        Unicode → Bytes → Bytes → Option (Dict (Json n.Number))
    unfolding first_service
    run_ecs_service_snapshot u cluster service =
        let cluster' = trim_space u cluster in
        let service' = trim_space u service in
        if is_empty cluster' || is_empty service'
        then none
        else first_service u cluster' service' (api.describe_services cluster' service')
