-- ===== src/Evaluator/Grades/Memory.antt =====
-- `InMemoryGradeStore` and `InMemoryIntermediateStore`, behind the interfaces.
pub mod Overrides
use research_crafters.Prelude.{
  Option, String, [], if◌then◌else◌, nat_eq, none, some, string_eq, ◌==◌, ◌≡◌,
}
use research_crafters.Prelude.Dict.{Dict, insert, lookup, lookup-insert}
use research_crafters.Evaluator.Grades.{
  Grade, GradeStore, IntermediateStore, OverrideEntry, Snapshot, apply_override, key_of,
}

pub record GradeMaps (N : Type 0) : Type 0 where
  pub by_key : Dict (Grade N)
  pub by_id : Dict (Grade N)

module _ {N : Type 0} where
  abbrev pub empty_maps : GradeMaps N
  empty_maps = record { by_key = []; by_id = [] }

  abbrev pub put_grade : Grade N → GradeMaps N → GradeMaps N
  put_grade g m = record { by_key = insert m.by_key (key_of g) g; by_id = insert m.by_id g.id g }

  -- `InMemoryGradeStore.appendOverride`
  unfoldable pub append_in_memory :
      String → OverrideEntry N → GradeMaps N → Option (Grade N × GradeMaps N)
  append_in_memory grade_id entry m = elim (lookup m.by_id grade_id) [
    | none ↦ none
    | some existing ↦
        let updated = apply_override existing entry in
        some (
          updated,
          record {
            by_id = insert m.by_id grade_id updated;
            by_key = insert m.by_key (key_of updated) updated;
          },
        )
  ]

  pub memory_find-insert :
      (g : Grade N) (m : GradeMaps N) (k : String)
      → lookup (put_grade g m).by_key k ≡ (if key_of g == k then some g else lookup m.by_key k)
  memory_find-insert g m k = lookup-insert m.by_key (key_of g) k g

  abbrev pub memory_store : GradeStore N (GradeMaps N)
  memory_store = record {
    find_by_key = λ k m. lookup m.by_key k;
    insert_grade = λ g m. (g, put_grade g m);
    append_override = append_in_memory;
    find-insert = memory_find-insert;
  }

  pub memory_find-save :
      (r : Snapshot N) (d : Dict (Snapshot N)) (k : String)
      → lookup (insert d r.key r) k ≡ (if r.key == k then some r else lookup d k)
  memory_find-save r d k = lookup-insert d r.key k r

  abbrev pub memory_intermediate : IntermediateStore N (Dict (Snapshot N))
  memory_intermediate = record {
    find_snapshot = λ k d. lookup d k;
    save_snapshot = λ r d. insert d r.key r;
    find-save = memory_find-save;
  }
