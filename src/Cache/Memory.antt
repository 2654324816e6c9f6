-- ===== src/Cache/Memory.antt =====
-- `MediaCache` without Redis: `_get`, `_set`, `_delete` and `_prune_memory`. Each body that the lock
-- protects is one function; it reads the clock once or twice.
use ytdlbot.Prelude.{
  ℕ, ◌+◌, Bool, not, ◌&&◌, Option, none, some, String, List, [], ◌∷◌, ltb, leb, if◌then◌else◌,
  filter, length,
}
use ytdlbot.Prelude.Dict.{lookup, has_key, insert, remove}

pub record MemoryRecord : Type 0 where
  pub payload : String
  pub expires_at : ℕ

abbrev pub Records : Type 0
Records = List (String × MemoryRecord)

pub record MediaCache : Type 0 where
  pub max_memory_entries : ℕ
  pub memory : Records

abbrev pub set_memory : MediaCache → Records → MediaCache
set_memory c memory = record c { memory = memory }

abbrev pub is_alive : ℕ → String × MemoryRecord → Bool
is_alive now entry = ltb now entry.1.expires_at

unfoldable pub prune_memory : Records → ℕ → Records
prune_memory memory now = filter (is_alive now) memory

-- `min(self._memory, key=…)`: the first of the smallest, where `best` is the first entry.
unfoldable pub oldest : String × MemoryRecord → Records → String × MemoryRecord
oldest best [] = best
oldest best (entry ∷ memory) =
    oldest (if leb best.1.expires_at entry.1.expires_at then best else entry) memory

unfoldable pub drop_oldest : Records → Records
unfolding oldest
drop_oldest [] = []
drop_oldest (entry ∷ memory) = remove (oldest entry memory).0 (entry ∷ memory)

-- The record that `touch_ttl` leaves, where `later` is the second reading of the clock.
abbrev pub touched : MemoryRecord → Option ℕ → ℕ → MemoryRecord
touched r none later = r
touched r (some ttl) later = record r { expires_at = later + ttl }

unfoldable pub get_record :
    MediaCache → String → Option ℕ → ℕ → ℕ → MemoryRecord → Option String × MediaCache
get_record c key touch_ttl now later r =
    if leb r.expires_at now
    then (none, set_memory c (remove key c.memory))
    else (some r.payload, set_memory c (insert key (touched r touch_ttl later) c.memory))

-- `_get`
unfoldable pub get : MediaCache → String → Option ℕ → ℕ → ℕ → Option String × MediaCache
unfolding get_record
get c key touch_ttl now later = elim (lookup key c.memory) [
  | none ↦ (none, c)
  | some r ↦ get_record c key touch_ttl now later r
]

-- `_set`, after the pruning.
unfoldable pub make_room : ℕ → String → Records → Records
unfolding drop_oldest
make_room size key memory =
    if not (has_key key memory) && leb size (length memory) then drop_oldest memory else memory

unfoldable pub set : MediaCache → String → String → ℕ → ℕ → ℕ → MediaCache
unfolding prune_memory make_room
set c key payload ttl now later = set_memory c (
    insert key (record { payload = payload; expires_at = later + ttl })
      (make_room c.max_memory_entries key (prune_memory c.memory now)))

-- `_delete`
unfoldable pub delete : MediaCache → String → MediaCache
delete c key = set_memory c (remove key c.memory)
