-- ===== src/Account/Tables.antt =====
-- apps/web/lib/account-cascade.ts: the tables, and the queries on them.
use research_crafters.Prelude.{
  Bool, List, Option, String, [], codes_eq, contains, false, filter, if◌then◌else◌, length, map,
  nat_eq, none, not, some, string_eq, ℕ, ◌==◌, ◌∷◌,
}
use research_crafters.Prelude.Dict.{Dict}

-- A value of a column: a date, a big integer, or what JSON has.
pub data Cell (V : Type 0) : Type 0 where
  date : ℕ → Cell V
  big : ℕ → Cell V
  json : V → Cell V

pub data Exported (V : Type 0) : Type 0 where
  text : String → Exported V
  as_is : V → Exported V

pub record Row (V : Type 0) : Type 0 where
  pub id : String
  pub key : Option String
  pub content : Dict (Cell V)

-- `toISOString` and `toString`
pub record Texts : Type 0 where
  pub iso : ℕ → String
  pub digits : ℕ → String

pub record UserRow : Type 0 where
  pub email : String
  pub github_handle : Option String
  pub display_name : Option String
  pub name : Option String
  pub image : Option String
  pub email_verified : Option ℕ
  pub created_at : ℕ

pub record AccountDb (V : Type 0) : Type 0 where
  pub users : Dict UserRow
  pub sessions : List (Row V)
  pub accounts : List (Row V)
  pub device_flows : List (Row V)
  pub tokens : List (Row V)
  pub runs : List (Row V)
  pub grades : List (Row V)
  pub submissions : List (Row V)
  pub attempts : List (Row V)
  pub messages : List (Row V)
  pub threads : List (Row V)
  pub traversals : List (Row V)
  pub share_cards : List (Row V)
  pub enrollments : List (Row V)
  pub entitlements : List (Row V)
  pub memberships : List (Row V)
  pub events : List (Row V)
  pub reviews : List (Row V)

module _ {V : Type 0} where
  -- `where: { <column>: k }`
  abbrev pub has_key : String → Row V → Bool
  has_key k row = elim row.key [ none ↦ false | some j ↦ j == k ]

  -- `where: { <column>: { in: ids } }`
  abbrev pub key_in : List String → Row V → Bool
  key_in ids row = elim row.key [ none ↦ false | some j ↦ contains ids j ]

  abbrev pub find_many : String → List (Row V) → List (Row V)
  find_many k rows = filter (has_key k) rows

  abbrev pub delete_many : String → List (Row V) → List (Row V)
  delete_many k rows = filter (λ row. not (has_key k row)) rows

  -- The query is not sent where there are no ids.
  unfoldable pub find_in : List String → List (Row V) → List (Row V)
  find_in ids rows = if length ids == 0 then [] else filter (key_in ids) rows

  unfoldable pub delete_in : List String → List (Row V) → List (Row V)
  delete_in ids rows = if length ids == 0 then rows else filter (λ row. not (key_in ids row)) rows

  abbrev pub ids_of : List (Row V) → List String
  ids_of rows = map (λ (row : Row V). row.id) rows

  -- `updateMany` of the rows of a user, whose column becomes null.
  unfoldable pub scrub : String → List (Row V) → List (Row V)
  scrub k [] = []
  scrub k (row ∷ rows) = (if has_key k row then record row { key = none } else row) ∷ scrub k rows

  abbrev export_cell : Texts → Cell V → Exported V
  export_cell texts (date t) = text (texts.iso t)
  export_cell texts (big n) = text (texts.digits n)
  export_cell texts (json v) = as_is v

  unfoldable pub export_cells : Texts → Dict (Cell V) → Dict (Exported V)
  export_cells texts [] = []
  export_cells texts ((k, v) ∷ rest) = (k, export_cell texts v) ∷ export_cells texts rest

  -- `normalizeRow`
  abbrev pub normalize_row : Texts → Row V → Dict (Exported V)
  normalize_row texts row = export_cells texts row.content
