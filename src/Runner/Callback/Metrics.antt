-- ===== src/Runner/Callback/Metrics.antt =====
-- About the metrics of a run.
use research_crafters.Prelude.{
  ==_self, Option, Option-cases, String, [], arith, false, get_or, if◌then◌else◌, inl, inr, is_some,
  nat_eq, none, refl, some, string_eq, ◌==◌, ◌∷◌, ◌≡◌,
}
use research_crafters.Prelude.Dict.{Dict, insert, lookup, lookup-insert}
use research_crafters.Runner.Callback.{
  CallbackBody, CallbackEnv, CallbackRequest, RawBody, RunDb, RunRow, accepted, callback, find_run,
  handle_body, merge, parse_body, persist, updated_run,
}

module _ {V : Type 0} where
  -- The last value that a report gives a metric.
  abbrev pub last_value : Dict V → String → Option V
  last_value [] k = none
  last_value ((j, v) ∷ metrics) k =
      let later = last_value metrics k in
      if is_some later then later else if j == k then some v else none

  abbrev pub or_else : Option V → Option V → Option V
  or_else none o = o
  or_else (some v) o = some v

  lookup-merge :
      (base metrics : Dict V) (k : String)
      → lookup (merge base metrics) k ≡ or_else (last_value metrics k) (lookup base k)
  unfolding merge
  lookup-merge base [] k = refl
  lookup-merge base ((j, v) ∷ metrics) k =
      ground (arith, lookup-merge (insert base j v) metrics k, lookup-insert base j k v)

  -- A metric of a run, as far as its row has one.
  abbrev pub metric : RunDb V → String → String → Option V
  metric db id k = elim (lookup db.runs id) [
    | none ↦ none
    | some row ↦ lookup (get_or row.metrics_json []) k
  ]

  persist-works :
      (env : CallbackEnv) (id : String) (b : CallbackBody V) (row : RunRow V) (db : RunDb V)
      → (persist env id b row db).0 ≡ accepted
      → env.write_fails ≡ false
  unfolding persist
  persist-works env id b row db h = ground arith

  persist-metric :
      (env : CallbackEnv) (id : String) (b : CallbackBody V) (row : RunRow V) (db : RunDb V)
      (k : String)
      → env.write_fails ≡ false
      → lookup db.runs id ≡ some row
      → metric (persist env id b row db).1 id k
        ≡ or_else (last_value (get_or b.metrics []) k) (metric db id k)
  unfolding persist updated_run
  persist-metric env id b row db k works found = elim (Option-cases b.metrics) [
    | inl nothing ↦
        ground (arith, lookup-insert db.runs id id (updated_run env.now b row), ==_self id)
    | inr (metrics, e) ↦ ground (
      arith,
      lookup-insert db.runs id id (updated_run env.now b row),
      ==_self id,
      lookup-merge (get_or row.metrics_json []) metrics k,
    )
  ]

  handle_body-metric :
      (env : CallbackEnv) (id : String) (b : CallbackBody V) (db : RunDb V) (k : String)
      → (handle_body env id b db).0 ≡ accepted
      → metric (handle_body env id b db).1 id k
        ≡ or_else (last_value (get_or b.metrics []) k) (metric db id k)
  unfolding handle_body
  handle_body-metric env id b db k h = elim (Option-cases (find_run env id db)) [
    | inl missing ↦ ground arith
    | inr (row, found) ↦
        ground (arith, persist-metric env id b row db k, persist-works env id b row db)
  ]

  -- An accepted callback merges its metrics into those of its run: the run has each metric with the
  -- last value that the body reports for it, and with its old value where the body reports none.
  pub callback-metric :
      (env : CallbackEnv) (r : CallbackRequest V) (raw : Option (RawBody V)) (b : CallbackBody V)
      (db : RunDb V) (k : String)
      → r.payload ≡ some raw
      → parse_body raw ≡ some b
      → (callback env r db).0 ≡ accepted
      → metric (callback env r db).1 r.run_id k
        ≡ or_else (last_value (get_or b.metrics []) k) (metric db r.run_id k)
  unfolding callback
  callback-metric env r raw b db k sent parsed h =
      ground (arith, handle_body-metric env r.run_id b db k)
