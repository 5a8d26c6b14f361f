-- ===== src/Mentor/ContextCache.antt =====
-- packages/ai/src/context-cache.ts: `InMemoryMentorContextCache`, for values of any type. The
-- dictionary keeps the order of insertion of the `Map`, oldest first; times are milliseconds.
pub mod Laws
use research_crafters.Prelude.{
  Option, String, [], if◌then◌else◌, is_some, leb, length, none, some, ℕ, ◌+◌, ◌∷◌,
}
use research_crafters.Prelude.Dict.{Dict, erase, insert, lookup}

pub record CacheOptions : Type 0 where
  pub ttl_ms : ℕ
  pub max_entries : ℕ

module _ {ℓ} (V : Type ℓ) where
  pub record Entry : Type ℓ where
    pub value : V
    pub expires_at : ℕ

module _ {ℓ} {V : Type ℓ} where
  -- `get`: an expired entry is deleted.
  unfoldable pub get : ℕ → String → Dict (Entry V) → Option V × Dict (Entry V)
  get now key entries = elim (lookup entries key) [
    | none ↦ (none, entries)
    | some e ↦ if leb e.expires_at now then (none, erase entries key) else (some e.value, entries)
  ]

  -- `this.entries.keys().next().value`, and its deletion.
  unfoldable pub evict_oldest : Dict (Entry V) → Dict (Entry V)
  evict_oldest [] = []
  evict_oldest ((k, e) ∷ entries) = erase ((k, e) ∷ entries) k

  abbrev pub make_room : CacheOptions → String → Dict (Entry V) → Dict (Entry V)
  make_room o key entries =
      if is_some (lookup entries key)
      then erase entries key
      else if leb o.max_entries (length entries)
      then evict_oldest entries
      else entries

  -- `set`
  unfoldable pub set : CacheOptions → ℕ → String → V → Dict (Entry V) → Dict (Entry V)
  set o now key v entries =
      insert (make_room o key entries) key (record { value = v; expires_at = now + o.ttl_ms })

  -- `delete`
  abbrev pub delete : String → Dict (Entry V) → Dict (Entry V)
  delete key entries = erase entries key

  -- `clear`
  abbrev pub clear : Dict (Entry V) → Dict (Entry V)
  clear entries = []
