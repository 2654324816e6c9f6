-- ===== src/Cache/Calls.antt =====
-- The cache's calls as values, on the cache and on the map that it stands for: one without a bound,
-- which forgets nothing but what expires or is deleted.
use ytdlbot.Prelude.{ℕ, ◌+◌, Option, none, some, String, List, [], ◌∷◌, str_eq, leb, if◌then◌else◌}
use ytdlbot.Cache.Memory
use ytdlbot.Cache.Memory.{MemoryRecord, MediaCache, touched}

pub data Call : Type 0 where
  get : String → Option ℕ → ℕ → ℕ → Call
  set : String → String → ℕ → ℕ → ℕ → Call
  delete : String → Call

-- What the call returns, which is none for one that returns nothing.
unfoldable pub call : MediaCache → Call → Option String × MediaCache
call c (get key touch_ttl now later) = Memory.get c key touch_ttl now later
call c (set key payload ttl now later) = (none, Memory.set c key payload ttl now later)
call c (delete key) = (none, Memory.delete c key)

unfoldable pub call_all : MediaCache → List Call → List (Option String)
unfolding call
call_all c [] = []
call_all c (x ∷ xs) = (call c x).0 ∷ call_all (call c x).1 xs

abbrev pub Promises : Type 0
Promises = String → Option MemoryRecord

abbrev pub promise : Promises → String → Option MemoryRecord → Promises
promise m key r = λ k. if str_eq key k then r else m k

unfoldable pub read_record :
    Promises → String → Option ℕ → ℕ → ℕ → MemoryRecord → Option String × Promises
read_record m key touch_ttl now later r =
    if leb r.expires_at now
    then (none, m)
    else (some r.payload, promise m key (some (touched r touch_ttl later)))

unfoldable pub answer : Promises → Call → Option String × Promises
unfolding read_record
answer m (get key touch_ttl now later) = elim (m key) [
  | none ↦ (none, m)
  | some r ↦ read_record m key touch_ttl now later r
]
answer m (set key payload ttl now later) =
    (none, promise m key (some (record { payload = payload; expires_at = later + ttl })))
answer m (delete key) = (none, promise m key none)

unfoldable pub answer_all : Promises → List Call → List (Option String)
unfolding answer
answer_all m [] = []
answer_all m (x ∷ xs) = (answer m x).0 ∷ answer_all (answer m x).1 xs

abbrev pub empty_cache : ℕ → MediaCache
empty_cache size = record { max_memory_entries = size; memory = [] }

unfoldable pub after : MediaCache → List Call → MediaCache
unfolding call
after c [] = c
after c (x ∷ xs) = after (call c x).1 xs
