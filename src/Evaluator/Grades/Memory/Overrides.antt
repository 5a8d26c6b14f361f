-- ===== src/Evaluator/Grades/Memory/Overrides.antt =====
-- Reviewer overrides in the in-memory store.
use research_crafters.Prelude.{
  String, [], arith, eq_iff, if◌then◌else◌, nat_eq, none, refl, some, string_eq, ◌++◌, ◌==◌, ◌∷◌,
  ◌≡◌,
}
use research_crafters.Prelude.Dict.{insert, lookup, lookup-insert}
use research_crafters.Evaluator.Grades.{Grade, OverrideEntry, apply_override, key_of}
use research_crafters.Evaluator.Grades.Memory.{GradeMaps, append_in_memory, empty_maps, put_grade}

module _ {N : Type 0} where
  -- The two maps agree: each lists a grade under its own key or id, and a grade listed by its key is
  -- the one listed by its id.
  pub record IsCoherent (m : GradeMaps N) : Type 0 where
    pub keyed : (k : String) (g : Grade N) → lookup m.by_key k ≡ some g → key_of g ≡ k
    pub named : (id : String) (g : Grade N) → lookup m.by_id id ≡ some g → g.id ≡ id
    pub latest :
        (id : String) (g : Grade N)
        → lookup m.by_id id ≡ some g
        → lookup m.by_key (key_of g) ≡ some g

  pub IsCoherent-empty : IsCoherent empty_maps
  unfolding lookup
  IsCoherent-empty = record { keyed = λ k g h. cc; named = λ id g h. cc; latest = λ id g h. cc }

  -- A new grade, under a key and an id that are not taken, keeps the maps coherent.
  pub insert-IsCoherent :
      (g : Grade N) (m : GradeMaps N)
      → lookup m.by_key (key_of g) ≡ none
      → lookup m.by_id g.id ≡ none
      → IsCoherent m
      → IsCoherent (put_grade g m)
  insert-IsCoherent g m new_key new_id c = record {
    keyed = λ k h e.
        ground (arith, lookup-insert m.by_key (key_of g) k g, eq_iff (key_of g) k, c.keyed k h);
    named = λ id h e. ground (arith, lookup-insert m.by_id g.id id g, eq_iff g.id id, c.named id h);
    latest = λ id h e. ground (
      arith,
      lookup-insert m.by_id g.id id g,
      lookup-insert m.by_key (key_of g) (key_of h) g,
      eq_iff (key_of g) (key_of h),
      eq_iff g.id id,
      c.latest id h,
    );
  }

  apply_override-key :
      (g : Grade N) (e : OverrideEntry N)
      → (key_of (apply_override g e) ≡ key_of g) × ((apply_override g e).id ≡ g.id)
  unfolding apply_override
  apply_override-key g e = (refl, refl)

  abbrev overridden : Grade N → OverrideEntry N → GradeMaps N → GradeMaps N
  overridden g e m = record {
    by_id = insert m.by_id g.id (apply_override g e);
    by_key = insert m.by_key (key_of g) (apply_override g e);
  }

  append_in_memory_lem :
      (g : Grade N) (e : OverrideEntry N) (m : GradeMaps N)
      → lookup m.by_id g.id ≡ some g
      → append_in_memory g.id e m ≡ some (apply_override g e, overridden g e m)
  unfolding append_in_memory
  append_in_memory_lem g e m found = ground (arith, apply_override-key g e)

  overridden-IsCoherent :
      (g : Grade N) (e : OverrideEntry N) (m : GradeMaps N)
      → lookup m.by_id g.id ≡ some g
      → IsCoherent m
      → IsCoherent (overridden g e m)
  overridden-IsCoherent g e m found c = record {
    keyed = λ k h p. ground (
      arith,
      lookup-insert m.by_key (key_of g) k (apply_override g e),
      apply_override-key g e,
      eq_iff (key_of g) k,
      c.keyed k h,
    );
    named = λ id h p. ground (
      arith,
      lookup-insert m.by_id g.id id (apply_override g e),
      apply_override-key g e,
      eq_iff g.id id,
      c.named id h,
    );
    latest = λ id h p. ground (
      arith,
      lookup-insert m.by_id g.id id (apply_override g e),
      lookup-insert m.by_key (key_of g) (key_of h) (apply_override g e),
      apply_override-key g e,
      eq_iff (key_of g) (key_of h),
      eq_iff g.id id,
      c.latest id h,
      c.latest g.id g found,
      c.named id h,
    );
  }

  -- What the override leaves of the maps.
  abbrev pub Overrides : Grade N → OverrideEntry N → GradeMaps N → GradeMaps N → Type 0
  Overrides g e m m' =
      ((id : String)
        → lookup m'.by_id id
          ≡ (if g.id == id then some (apply_override g e) else lookup m.by_id id))
      × ((k : String)
          → lookup m'.by_key k
            ≡ (if key_of g == k then some (apply_override g e) else lookup m.by_key k))

-- In coherent maps, an override of a listed grade returns the grade with the entry at the end of its
-- history; the new grade is the one found by its id and by its key, every other id and key keeps
-- its grade, and the maps stay coherent.
pub append_in_memory-Overrides :
    {N : Type 0} (g : Grade N) (e : OverrideEntry N) (m : GradeMaps N)
    → IsCoherent m
    → lookup m.by_id g.id ≡ some g
    → (g' : Grade N) × (m' : GradeMaps N) × (append_in_memory g.id e m ≡ some (g', m'))
      × (g'.history ≡ g.history ++ e ∷ [])
      × Overrides g e m m'
      × IsCoherent m'
append_in_memory-Overrides g e m c found = (
  apply_override g e,
  overridden g e m,
  append_in_memory_lem g e m found,
  (unfold apply_override in refl),
  (
    λ id. lookup-insert m.by_id g.id id (apply_override g e),
    λ k. lookup-insert m.by_key (key_of g) k (apply_override g e),
  ),
  overridden-IsCoherent g e m found c,
)
