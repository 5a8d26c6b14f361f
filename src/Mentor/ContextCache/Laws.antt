-- ===== src/Mentor/ContextCache/Laws.antt =====
-- The bound on the cache, and what a read may return after any run of operations.
use research_crafters.Prelude.{
  ==_self, List, Option, Option-cases, String, [], arith, if◌then◌else◌, inl, inr, is_some, length,
  ltb, nat_eq, none, refl, some, string_eq, true, ℕ, ◌+◌, ◌<◌, ◌==◌, ◌∷◌, ◌≡◌, ◌≤◌, ◌⊎◌,
}
use research_crafters.Prelude.Dict.{Dict, erase, insert, lookup, lookup-erase, lookup-insert}
use research_crafters.Mentor.ContextCache.{
  CacheOptions, Entry, clear, delete, evict_oldest, get, make_room, set,
}

module _ {ℓ} {V : Type ℓ} where
  length-insert_new :
      (d : Dict (Entry V)) (k : String) (e : Entry V)
      → lookup d k ≡ none
      → length (insert d k e) ≡ length d + 1
  unfolding lookup insert
  length-insert_new [] k e h = omega arith
  length-insert_new ((j, w) ∷ d) k e h = ground (arith, length-insert_new d k e)

  length-erase : (d : Dict (Entry V)) (k : String) → length (erase d k) ≤ length d
  unfolding erase
  length-erase [] k = omega arith
  length-erase ((j, w) ∷ d) k = ground (arith, length-erase d k)

  length-erase_some :
      (d : Dict (Entry V)) (k : String)
      → is_some (lookup d k) ≡ true
      → length (erase d k) + 1 ≤ length d
  unfolding lookup erase
  length-erase_some [] k h = cc
  length-erase_some ((j, w) ∷ d) k h = ground (arith, length-erase_some d k, length-erase d k)

  length-evict : (d : Dict (Entry V)) → 1 ≤ length d → length (evict_oldest d) + 1 ≤ length d
  unfolding evict_oldest erase
  length-evict [] h = absurd (omega arith)
  length-evict ((j, w) ∷ d) h = ground (arith, ==_self j, length-erase d j)

  lookup-evict :
      (d : Dict (Entry V)) (k : String) → lookup d k ≡ none → lookup (evict_oldest d) k ≡ none
  unfolding evict_oldest
  lookup-evict [] k h = h
  lookup-evict ((j, w) ∷ d) k h = ground (arith, lookup-erase ((j, w) ∷ d) j k)

  lookup-make_room :
      (o : CacheOptions) (k : String) (d : Dict (Entry V)) → lookup (make_room o k d) k ≡ none
  lookup-make_room o k d = elim (Option-cases (lookup d k)) [
    | inl missing ↦ ground (arith, lookup-evict d k missing)
    | inr (e, found) ↦ ground (arith, lookup-erase d k k, ==_self k)
  ]

  length-make_room :
      (o : CacheOptions) (k : String) (d : Dict (Entry V))
      → 1 ≤ o.max_entries
      → length d ≤ o.max_entries
      → length (make_room o k d) + 1 ≤ o.max_entries
  length-make_room o k d pm h = ground (arith, length-erase_some d k, length-evict d)

  -- A write never lets the cache outgrow `max_entries`, which is at least 1.
  pub length-set :
      (o : CacheOptions) (now : ℕ) (k : String) (v : V) (d : Dict (Entry V))
      → 1 ≤ o.max_entries
      → length d ≤ o.max_entries
      → length (set o now k v d) ≤ o.max_entries
  unfolding set
  length-set o now k v d pm h = ground (
    arith,
    length-insert_new (make_room o k d) k (record { value = v; expires_at = now + o.ttl_ms }),
    lookup-make_room o k d,
    length-make_room o k d,
  )

  -- A read right after a write of the same key returns the value exactly while its time to live has
  -- not run out.
  pub get-set_self :
      (o : CacheOptions) (now later : ℕ) (k : String) (v : V) (d : Dict (Entry V))
      → (get later k (set o now k v d)).0 ≡ (if ltb later (now + o.ttl_ms) then some v else none)
  unfolding get set
  get-set_self o now later k v d = ground (
    arith,
    lookup-insert (make_room o k d) k k (record { value = v; expires_at = now + o.ttl_ms }),
    ==_self k,
  )

module _ {ℓ} (V : Type ℓ) where
  -- One call of the cache at a time.
  pub data CacheOp : Type ℓ where
    write : ℕ → String → V → CacheOp
    read : ℕ → String → CacheOp
    remove : String → CacheOp
    wipe : CacheOp

module _ {ℓ} {V : Type ℓ} (o : CacheOptions) where
  abbrev pub apply : CacheOp V → Dict (Entry V) → Dict (Entry V)
  apply (write now k v) d = set o now k v d
  apply (read now k) d = (get now k d).1
  apply (remove k) d = delete k d
  apply wipe d = clear d

  -- The calls are made in turn.
  abbrev pub serve : List (CacheOp V) → Dict (Entry V) → Dict (Entry V)
  serve [] d = d
  serve (op ∷ ops) d = serve ops (apply op d)

  -- The last write of a key and its time, where nothing has removed the key since.
  abbrev pub last_write : String → Option (V × ℕ) → List (CacheOp V) → Option (V × ℕ)
  last_write k w [] = w
  last_write k w (write now j v ∷ ops) = last_write k (if j == k then some (v, now) else w) ops
  last_write k w (read now j ∷ ops) = last_write k w ops
  last_write k w (remove j ∷ ops) = last_write k (if j == k then none else w) ops
  last_write k w (wipe ∷ ops) = last_write k none ops

  abbrev entry_of_write : Option (V × ℕ) → Option (Entry V)
  entry_of_write none = none
  entry_of_write (some (v, now)) = some (record { value = v; expires_at = now + o.ttl_ms })

  -- The cache has nothing for the key, or the entry of its last write.
  abbrev Agrees : String → Option (V × ℕ) → Dict (Entry V) → Type ℓ
  Agrees k w d = (lookup d k ≡ none) ⊎ (lookup d k ≡ entry_of_write w)

  Agrees-evict :
      (k : String) (w : Option (V × ℕ)) (d : Dict (Entry V))
      → Agrees k w d
      → Agrees k w (evict_oldest d)
  unfolding evict_oldest
  Agrees-evict k w [] a = a
  Agrees-evict k w ((j, e) ∷ d) a = ground (arith, lookup-erase ((j, e) ∷ d) j k)

  Agrees-make_room :
      (k j : String) (w : Option (V × ℕ)) (d : Dict (Entry V))
      → Agrees k w d
      → Agrees k w (make_room o j d)
  Agrees-make_room k j w d a = ground (arith, lookup-erase d j k, Agrees-evict k w d a)

  Agrees-set :
      (k j : String) (now : ℕ) (v : V) (w : Option (V × ℕ)) (d : Dict (Entry V))
      → Agrees k w d
      → Agrees k (if j == k then some (v, now) else w) (set o now j v d)
  unfolding set
  Agrees-set k j now v w d a = ground (
    arith,
    lookup-insert (make_room o j d) j k (record { value = v; expires_at = now + o.ttl_ms }),
    Agrees-make_room k j w d a,
  )

  Agrees-get :
      (k j : String) (now : ℕ) (w : Option (V × ℕ)) (d : Dict (Entry V))
      → Agrees k w d
      → Agrees k w (get now j d).1
  unfolding get
  Agrees-get k j now w d a = ground (arith, lookup-erase d j k)

  Agrees-serve :
      (k : String) (ops : List (CacheOp V)) (w : Option (V × ℕ)) (d : Dict (Entry V))
      → Agrees k w d
      → Agrees k (last_write k w ops) (serve ops d)
  Agrees-serve k [] w d a = a
  Agrees-serve k (write now j v ∷ ops) w d a =
      Agrees-serve k ops _ (set o now j v d) (Agrees-set k j now v w d a)
  Agrees-serve k (read now j ∷ ops) w d a =
      Agrees-serve k ops w (get now j d).1 (Agrees-get k j now w d a)
  Agrees-serve k (remove j ∷ ops) w d a =
      Agrees-serve k ops (if j == k then none else w) (erase d j)
        (ground (arith, lookup-erase d j k))
  Agrees-serve k (wipe ∷ ops) w d a = Agrees-serve k ops none [] (unfold lookup in inl refl)

  get_of_Agrees :
      (k : String) (now : ℕ) (v : V) (w : Option (V × ℕ)) (d : Dict (Entry V))
      → Agrees k w d
      → (get now k d).0 ≡ some v
      → (at : ℕ) × (w ≡ some (v, at)) × (now < at + o.ttl_ms)
  unfolding get
  get_of_Agrees k now v none d a h = absurd (ground arith)
  get_of_Agrees k now v (some (u, at)) d a h = (at, ground arith, ground arith)

-- After any run of writes, reads, removals and wipes from the empty cache, a read that returns a
-- value returns the one that the last write of that very key stored, which nothing has removed
-- since, and within its time to live.
pub serve-get_sound {ℓ} :
    {V : Type ℓ} (o : CacheOptions) (ops : List (CacheOp V)) (k : String) (now : ℕ) (v : V)
    → (get now k (serve o ops [])).0 ≡ some v
    → (at : ℕ) × (last_write o k none ops ≡ some (v, at)) × (now < at + o.ttl_ms)
serve-get_sound o ops k now v h =
    get_of_Agrees o k now v (last_write o k none ops) (serve o ops [])
      (Agrees-serve o k ops none [] (unfold lookup in inl refl)) h
