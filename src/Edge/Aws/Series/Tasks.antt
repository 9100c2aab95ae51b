-- ===== src/Edge/Aws/Series/Tasks.antt =====
-- internal/edge/awsexec/cloudwatch_metrics.go: the one series of running tasks that is left.
use skybridge.Prelude.{
  ◌≡◌, refl, sym, ap, ◌∙◌, arith, Option, none, some, List, [], ◌∷◌, map, Bytes, if◌then◌else◌,
  bytes_equal, bytes_equal_iff, Option-cases, Bool-cases, inl, inr,
}
use skybridge.Edge.Aws.Series.{
  Row, tasks_id, tasks_avg_id, or_else, last_row, fill_row, change_last, drop_rows,
  merge_ecs_running_task_series,
}

-- The other texts, in their order.
pub remove : Bytes → List Bytes → List Bytes
remove k [] = []
remove k (j ∷ js) = if bytes_equal j k then remove k js else j ∷ remove k js

-- The value that there is, the first one of two.
pub first_of : {A : Type 0} → Option A → Option A → Option A
first_of none o = o
first_of (some a) o = some a

or_else-first_of : {A : Type 0} (o p : Option A) → or_else o p ≡ first_of o p
unfolding or_else first_of
or_else-first_of none p = refl
or_else-first_of (some a) p = refl

module _ {T V : Type 0} where
  -- A row of the tasks without points, next to a row of the average with the points `ps`.
  pub shown_empty : Row T V → List (T × V) → Row T V → Row T V
  shown_empty main [] alt = main
  shown_empty main (p ∷ ps) alt = record {
    id = main.id;
    label = main.label;
    status_code = first_of main.status_code alt.status_code;
    messages = first_of main.messages alt.messages;
    datapoints = p ∷ ps;
  }

  -- By the points of the row of the tasks: a row with points stays as it is.
  pub shown_points : Row T V → List (T × V) → Row T V → Row T V
  shown_points main [] alt = shown_empty main alt.datapoints alt
  shown_points main (p ∷ ps) alt = main

  -- What the output shows of the running tasks, given the row of their maximum and that of their
  -- average.
  pub tasks_row : Option (Row T V) → Option (Row T V) → Option (Row T V)
  tasks_row none alt = none
  tasks_row (some main) none = some main
  tasks_row (some main) (some alt) = some (shown_points main main.datapoints alt)

  abbrev pub ids : List (Row T V) → List Bytes
  ids = map λ s. s.id

  map_row : (Row T V → Row T V) → Option (Row T V) → Option (Row T V)
  map_row f none = none
  map_row f (some r) = some (f r)

  fill_row_id :
      (main : Row T V) (ps qs : List (T × V)) (alt : Row T V)
      → (fill_row main ps qs alt).id ≡ main.id
  unfolding fill_row
  fill_row_id main [] [] alt = refl
  fill_row_id main [] (q ∷ qs) alt = refl
  fill_row_id main (p ∷ ps) qs alt = refl

  last_row-drop_rows :
      (j k : Bytes) (s : List (Row T V))
      → last_row k (drop_rows j s) ≡ (if bytes_equal j k then none else last_row k s)
  unfolding last_row drop_rows
  last_row-drop_rows j k [] = ground arith
  last_row-drop_rows j k (r ∷ s) = ground (
    arith,
    bytes_equal_iff j k,
    bytes_equal_iff r.id k,
    bytes_equal_iff r.id j,
    last_row-drop_rows j k s,
  )

  module _ (f : Row T V → Row T V) (same : (r : Row T V) → (f r).id ≡ r.id) where
    last_row-change_last :
        (j k : Bytes) (s : List (Row T V))
        → last_row k (change_last j f s)
          ≡ (if bytes_equal j k then map_row f (last_row k s) else last_row k s)
    unfolding last_row change_last map_row
    last_row-change_last j k [] = ground arith
    last_row-change_last j k (r ∷ s) = ground (
      arith,
      bytes_equal_iff j k,
      bytes_equal_iff r.id k,
      bytes_equal_iff r.id j,
      same r,
      last_row-change_last j k s,
    )

    ids-change_last : (j : Bytes) (s : List (Row T V)) → ids (change_last j f s) ≡ ids s
    unfolding change_last
    ids-change_last j [] = refl
    ids-change_last j (r ∷ s) = ground (arith, same r, ids-change_last j s)

  ids-drop_rows : (j : Bytes) (s : List (Row T V)) → ids (drop_rows j s) ≡ remove j (ids s)
  unfolding drop_rows remove
  ids-drop_rows j [] = refl
  ids-drop_rows j (r ∷ s) = ground (arith, ids-drop_rows j s)

  tasks_row-none : (o : Option (Row T V)) → tasks_row o none ≡ o
  unfolding tasks_row
  tasks_row-none none = refl
  tasks_row-none (some main) = refl

  fill_row-shown :
      (main : Row T V) (ps qs : List (T × V)) (alt : Row T V)
      → alt.datapoints ≡ qs
      → fill_row main ps qs alt ≡ shown_points main ps alt
  unfolding fill_row shown_points shown_empty
  fill_row-shown main [] [] alt e = sym (ap (λ ps. shown_empty main ps alt) e)
  fill_row-shown main [] (q ∷ qs) alt e =
      rw (e, or_else-first_of main.status_code alt.status_code)
        (rw (or_else-first_of main.messages alt.messages) refl)
  fill_row-shown main (p ∷ ps) qs alt e = refl

  tasks_row-some :
      (o : Option (Row T V)) (alt : Row T V)
      → map_row (λ main. fill_row main main.datapoints alt.datapoints alt) o
        ≡ tasks_row o (some alt)
  unfolding tasks_row map_row
  tasks_row-some none alt = refl
  tasks_row-some (some main) alt =
      ap some (fill_row-shown main main.datapoints alt.datapoints alt refl)

  -- The row under an id, with what the tasks show in its place.
  shown_without :
      (series : List (Row T V)) (k : Bytes)
      → last_row k series ≡ (
          if bytes_equal tasks_id k
          then tasks_row (last_row tasks_id series) none
          else last_row k series)
  shown_without series k = elim (Bool-cases (bytes_equal tasks_id k)) [
    | inl e ↦ rw e (rw (← (bytes_equal_iff tasks_id k).0 e) (sym (tasks_row-none _)))
    | inr e ↦ rw e refl
  ]

  shown_with :
      (series : List (Row T V)) (k : Bytes) (alt : Row T V)
      → (if bytes_equal tasks_id k
          then map_row
              (λ main. fill_row main main.datapoints alt.datapoints alt)
              (last_row k series)
          else last_row k series)
        ≡ (if bytes_equal tasks_id k
            then tasks_row (last_row tasks_id series) (some alt)
            else last_row k series)
  shown_with series k alt = elim (Bool-cases (bytes_equal tasks_id k)) [
    | inl e ↦ rw e (rw (← (bytes_equal_iff tasks_id k).0 e) (tasks_row-some _ alt))
    | inr e ↦ rw e refl
  ]

  -- The rows keep their order, and under each id stands the row that it had: none for the average of
  -- the running tasks, and for the tasks themselves the row that they had, which takes the points of the
  -- average if it has none and the average has some, and with them the status and the messages of the
  -- average where it has none.
  pub merge_ecs_running_task_series-shows :
      (series : List (Row T V)) (k : Bytes)
      → let out = merge_ecs_running_task_series series in
        (ids out ≡ remove tasks_avg_id (ids series))
        × (last_row k out ≡ (
            if bytes_equal tasks_avg_id k
            then none
            else if bytes_equal tasks_id k
            then tasks_row (last_row tasks_id series) (last_row tasks_avg_id series)
            else last_row k series))
  unfolding merge_ecs_running_task_series
  merge_ecs_running_task_series-shows series k =
      elim (Option-cases (last_row tasks_avg_id series)) [
        | inl e ↦
            rw (e, merge_ecs_running_task_series)
              (
                ids-drop_rows tasks_avg_id series,
                last_row-drop_rows tasks_avg_id k series
                    ∙ ap (λ x. if bytes_equal tasks_avg_id k then none else x)
                        (shown_without series k),
              )
        | inr (alt, e) ↦
            let f : Row T V → Row T V = λ main. fill_row main main.datapoints alt.datapoints alt in
            let same = λ (r : Row T V). fill_row_id r r.datapoints alt.datapoints alt in
            rw (e, merge_ecs_running_task_series)
              (
                ids-drop_rows tasks_avg_id (change_last tasks_id f series)
                    ∙ ap (remove tasks_avg_id) (ids-change_last f same tasks_id series),
                last_row-drop_rows tasks_avg_id k (change_last tasks_id f series)
                    ∙ ap (λ x. if bytes_equal tasks_avg_id k then none else x)
                        (last_row-change_last f same tasks_id k series ∙ shown_with series k alt),
              )
      ]
