-- ===== src/Edge/Aws/Queries.antt =====
-- internal/edge/awsexec/cloudwatch_metrics.go: the metrics of each kind of resource.
use skybridge.Prelude.{ℕ, ◌&&◌, List, [], ◌∷◌, ◌++◌, Bytes, if◌then◌else◌}
use skybridge.Prelude.Text.{codes}
use skybridge.Edge.Aws.Metrics.{
  MetricSpec, Queries, build_queries, Selection, is_empty, all_services, has_ecs,
}

abbrev spec : Bytes → Bytes → Bytes → Bytes → MetricSpec
spec id name stat label = record { id = id; metric_name = name; stat = stat; label = label }

abbrev pub alb_specs : List MetricSpec
alb_specs =
    spec (codes "alb_req") (codes "RequestCount") (codes "Sum")
      (codes "ALB requests (sum / period)")
    ∷ spec (codes "alb_t4xx") (codes "HTTPCode_Target_4XX_Count") (codes "Sum")
        (codes "Target 4xx (sum / period)")
    ∷ spec (codes "alb_e4xx") (codes "HTTPCode_ELB_4XX_Count") (codes "Sum")
        (codes "ELB 4xx (sum / period)")
    ∷ spec (codes "alb_t5xx") (codes "HTTPCode_Target_5XX_Count") (codes "Sum")
        (codes "Target 5xx (sum / period)")
    ∷ spec (codes "alb_e5xx") (codes "HTTPCode_ELB_5XX_Count") (codes "Sum")
        (codes "ELB 5xx (sum / period)")
    ∷ spec (codes "alb_lat") (codes "TargetResponseTime") (codes "Average")
        (codes "Target response time avg (s)")
    ∷ spec (codes "alb_lat_p99") (codes "TargetResponseTime") (codes "p99")
        (codes "Target response time p99 (s)")
    ∷ []

unfoldable pub alb_metric_queries : Bytes → ℕ → Queries
unfolding build_queries
alb_metric_queries lb period =
    build_queries (codes "AWS/ApplicationELB") ((codes "LoadBalancer", lb) ∷ []) period alb_specs

abbrev pub cloud_front_specs : List MetricSpec
cloud_front_specs =
    spec (codes "cf_req") (codes "Requests") (codes "Sum")
      (codes "CloudFront requests (sum / period)")
    ∷ []

unfoldable pub cloud_front_metric_queries : Bytes → ℕ → Queries
unfolding build_queries
cloud_front_metric_queries dist_id period =
    build_queries (codes "AWS/CloudFront") ((codes "DistributionId", dist_id) ∷ []) period
      cloud_front_specs

abbrev pub ec2_specs : List MetricSpec
ec2_specs =
    spec (codes "ec2_cpu") (codes "CPUUtilization") (codes "Average") (codes "EC2 CPU %")
    ∷ spec (codes "ec2_net_in") (codes "NetworkIn") (codes "Sum") (codes "EC2 network in (bytes)")
    ∷ spec (codes "ec2_net_out") (codes "NetworkOut") (codes "Sum")
        (codes "EC2 network out (bytes)")
    ∷ []

unfoldable pub ec2_metric_queries : Bytes → ℕ → Queries
unfolding build_queries
ec2_metric_queries instance_id period =
    build_queries (codes "AWS/EC2") ((codes "InstanceId", instance_id) ∷ []) period ec2_specs

abbrev pub ecs_service_specs : List MetricSpec
ecs_service_specs =
    spec (codes "ecs_cpu") (codes "CPUUtilization") (codes "Average") (codes "ECS CPU %")
    ∷ spec (codes "ecs_mem") (codes "MemoryUtilization") (codes "Average") (codes "ECS memory %")
    ∷ spec (codes "ecs_tasks") (codes "RunningTaskCount") (codes "Maximum")
        (codes "ECS running tasks")
    ∷ spec (codes "ecs_tasks_avg") (codes "RunningTaskCount") (codes "Average")
        (codes "ECS running tasks (avg)")
    ∷ spec (codes "ecs_rx") (codes "NetworkRxBytes") (codes "Sum") (codes "ECS network RX (bytes)")
    ∷ spec (codes "ecs_tx") (codes "NetworkTxBytes") (codes "Sum") (codes "ECS network TX (bytes)")
    ∷ []

unfoldable pub ecs_service_metric_queries : Bytes → Bytes → ℕ → Queries
unfolding build_queries
ecs_service_metric_queries cluster service period =
    build_queries (codes "AWS/ECS")
      ((codes "ClusterName", cluster) ∷ (codes "ServiceName", service) ∷ []) period
      ecs_service_specs

abbrev pub ecs_cluster_specs : List MetricSpec
ecs_cluster_specs =
    spec (codes "ecs_cpu") (codes "CPUUtilization") (codes "Average") (codes "ECS CPU % (cluster)")
    ∷ spec (codes "ecs_mem") (codes "MemoryUtilization") (codes "Average")
        (codes "ECS memory % (cluster)")
    ∷ spec (codes "ecs_tasks") (codes "RunningTaskCount") (codes "Maximum")
        (codes "ECS running tasks (cluster)")
    ∷ spec (codes "ecs_tasks_avg") (codes "RunningTaskCount") (codes "Average")
        (codes "ECS running tasks (cluster, avg)")
    ∷ spec (codes "ecs_rx") (codes "NetworkRxBytes") (codes "Sum")
        (codes "ECS network RX (bytes, cluster)")
    ∷ spec (codes "ecs_tx") (codes "NetworkTxBytes") (codes "Sum")
        (codes "ECS network TX (bytes, cluster)")
    ∷ []

unfoldable pub ecs_cluster_metric_queries : Bytes → ℕ → Queries
unfolding build_queries
ecs_cluster_metric_queries cluster period =
    build_queries (codes "AWS/ECS") ((codes "ClusterName", cluster) ∷ []) period ecs_cluster_specs

unfoldable pub add_queries : Queries → Queries → Queries
add_queries (qs, ls) (qs', ls') = (qs ++ qs', ls ++ ls')

unfoldable pub ecs_queries : Selection → ℕ → Queries
unfolding has_ecs all_services ecs_cluster_metric_queries ecs_service_metric_queries
ecs_queries sel period =
    if has_ecs sel && all_services sel
    then ecs_cluster_metric_queries sel.ecs_cluster period
    else if has_ecs sel
    then ecs_service_metric_queries sel.ecs_cluster sel.ecs_service period
    else ([], [])

-- The queries of a call and their labels, in the order of the code.
unfoldable pub metric_queries : Selection → ℕ → Queries
unfolding add_queries alb_metric_queries ecs_queries cloud_front_metric_queries ec2_metric_queries
metric_queries sel period =
    add_queries
      (add_queries
        (add_queries (if is_empty sel.alb then ([], []) else alb_metric_queries sel.alb period)
          (ecs_queries sel period))
        (if is_empty sel.cf_id then ([], []) else cloud_front_metric_queries sel.cf_id period))
      (if is_empty sel.ec2_id then ([], []) else ec2_metric_queries sel.ec2_id period)
