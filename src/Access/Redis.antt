-- ===== src/Access/Redis.antt =====
-- infrastructure/redis_client.py: the operations of Redis that the program uses, as an interface with
-- their documented behaviour, and the in-memory shim that stands in for it. A call to a Redis that
-- cannot be reached gives nothing. Instants are whole seconds of the store's clock; a key is a text.
-- The choice between the two at start-up, and the connection itself, are not modelled.
use ghg_tool.Prelude.{
  ℕ, ◌+◌, ◌≤◌, ◌≡◌, refl, sym, ap, ◌∙◌, Bool-cases, inl, inr, Bool, true, false, String, Option,
  none, some, str_eq, ltb, leb, ◌==◌, arith, if◌then◌else◌,
}

-- `setex` takes the key, the time to live, the value and the instant; `exists` the key and the
-- instant.
pub record RedisLike : Type 1 where
  pub Store : Type 0
  pub setex : String → ℕ → String → (now : ℕ) → Store → Option Store
  pub exists : String → (now : ℕ) → Store → Option Bool

-- An entry that was set is there until its time to live has passed, and other keys are as before.
pub record RedisLaws (r : RedisLike) : Type 0 where
  pub exists-setex :
      (name : String) (ttl : ℕ) (value : String) (now : ℕ) (s t : r.Store)
      → r.setex name ttl value now s ≡ some t
      → (k : String) (later : ℕ) → now ≤ later
      → r.exists k later t
        ≡ (if str_eq name k then some (ltb later (now + ttl)) else r.exists k later s)

-- The shim's dictionary: the value and the deadline of a key.
abbrev pub Entries : Type 0
Entries = String → Option (String × ℕ)

-- [k for k, (_, exp) in items if exp <= now]
unfoldable pub alive : ℕ → Option (String × ℕ) → Option (String × ℕ)
alive now none = none
alive now (some entry) = if leb entry.1 now then none else some entry

unfoldable pub prune : ℕ → Entries → Entries
prune now store = λ k. alive now (store k)

unfoldable pub memory_setex : String → ℕ → String → ℕ → Entries → Option Entries
memory_setex name ttl value now store =
    if ttl == 0
    then none
    else some (λ k. if str_eq name k then some (value, now + ttl) else prune now store k)

abbrev is_there : Option (String × ℕ) → Bool
is_there none = false
is_there (some entry) = true

unfoldable pub memory_exists : String → ℕ → Entries → Option Bool
memory_exists name now store = some (is_there (prune now store name))

-- `delete` of one key, and how many were removed.
unfoldable pub memory_delete : String → Entries → ℕ × Entries
memory_delete name store =
    (if is_there (store name) then 1 else 0, λ k. if str_eq name k then none else store k)

abbrev pub InMemoryRedis : RedisLike
InMemoryRedis = record { Store = Entries; setex = memory_setex; exists = memory_exists }

abbrev entry_at : String → Option Entries → Option (String × ℕ)
entry_at k none = none
entry_at k (some s) = s k

set_entry :
    (name : String) (ttl : ℕ) (value : String) (now : ℕ) (s t : Entries)
    → memory_setex name ttl value now s ≡ some t
    → (k : String) → t k ≡ (if str_eq name k then some (value, now + ttl) else prune now s k)
unfolding memory_setex
set_entry name ttl value now s t h k = elim (Bool-cases (ttl == 0)) [
  | inl empty ↦ ground arith
  | inr full ↦ ap (entry_at k) (sym h) ∙ rw full refl
]

memory_exists-setex :
    (name : String) (ttl : ℕ) (value : String) (now : ℕ) (s t : Entries)
    → memory_setex name ttl value now s ≡ some t
    → (k : String) (later : ℕ) → now ≤ later
    → memory_exists k later t
      ≡ (if str_eq name k then some (ltb later (now + ttl)) else memory_exists k later s)
unfolding memory_setex memory_exists prune alive
memory_exists-setex name ttl value now s t h k later g =
    ground (arith, set_entry name ttl value now s t h k)

pub InMemoryRedis-RedisLaws : RedisLaws InMemoryRedis
InMemoryRedis-RedisLaws = record { exists-setex = memory_exists-setex }
