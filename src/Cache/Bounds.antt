-- ===== src/Cache/Bounds.antt =====
-- The cache's size, and what a read finds after a store.
use ytdlbot.Prelude.{
  ℕ, zero, suc, ◌+◌, ◌≡◌, ◌≤◌, ◌<◌, refl, Bool, true, false, not, ◌||◌, Option, none, some, String,
  List, [], ◌∷◌, arith, str_eq, eq_refl, ltb, leb, length, if◌then◌else◌, Bool-cases, Option-cases,
  inl, inr,
}
use ytdlbot.Prelude.Dict.{
  lookup, has_key, insert, remove, lookup-insert, has_key_found, length-filter, length-remove,
  length-insert, length-insert_known,
}
use ytdlbot.Cache.Memory
use ytdlbot.Cache.Memory.{
  MemoryRecord, Records, MediaCache, is_alive, prune_memory, oldest, drop_oldest, touched,
  get_record, make_room,
}
use ytdlbot.Cache.Calls.{Call, call, after, empty_cache}

-- The smaller of two candidates was one of them.
chosen_lem :
    (b : Bool) (best entry : String × MemoryRecord) (memory : Records)
    → ((e : String × MemoryRecord) → has_key (oldest e memory).0 (e ∷ memory) ≡ true)
    → has_key (oldest (if b then best else entry) memory).0 (best ∷ entry ∷ memory) ≡ true
chosen_lem true best entry memory h =
    or_skip (str_eq best.0 (oldest best memory).0) (str_eq entry.0 (oldest best memory).0)
      (has_key (oldest best memory).0 memory) (h best)
  where
    or_skip : (a b c : Bool) → (a || c) ≡ true → (a || (b || c)) ≡ true
    or_skip a b c h = ground arith
chosen_lem false best entry memory h = or_rest (str_eq best.0 (oldest entry memory).0) _ (h entry)
  where
    or_rest : (a c : Bool) → c ≡ true → (a || c) ≡ true
    or_rest a c h = ground arith

has_key-oldest :
    (best : String × MemoryRecord) (memory : Records)
    → has_key (oldest best memory).0 (best ∷ memory) ≡ true
unfolding oldest
has_key-oldest best [] = ground (arith, eq_refl best.0)
has_key-oldest best (entry ∷ memory) =
    chosen_lem (leb best.1.expires_at entry.1.expires_at) best entry memory
      (λ e. has_key-oldest e memory)

length-drop_oldest :
    (memory : Records) (n : ℕ) → length memory ≤ suc n → length (drop_oldest memory) ≤ n
unfolding drop_oldest
length-drop_oldest [] n h = omega arith
length-drop_oldest (entry ∷ memory) n h =
    let less : length (remove (oldest entry memory).0 (entry ∷ memory)) < length (entry ∷ memory) =
      length-remove (oldest entry memory).0 (entry ∷ memory) (has_key-oldest entry memory) in
    omega arith

-- A store leaves room for its own record.
length-set :
    (size : ℕ) (key : String) (r : MemoryRecord) (memory : Records)
    → length memory ≤ suc size
    → length (insert key r (make_room (suc size) key memory)) ≤ suc size
unfolding make_room
length-set size key r memory h = elim (Bool-cases (has_key key memory)) [
  | inl known ↦ rw (known, make_room) (ground (arith, length-insert_known key r memory known))
  | inr new ↦ elim (Bool-cases (leb (suc size) (length memory))) [
    | inl full ↦
        rw (new, full, make_room)
          (ground
            (arith, length-insert key r (drop_oldest memory), length-drop_oldest memory size h))
    | inr room ↦ rw (new, room, make_room) (ground (arith, length-insert key r memory))
  ]
]

-- The bound, with a size that the constructor has checked not to be zero.
record IsBounded (size : ℕ) (c : MediaCache) : Type 0 where
  entries : length c.memory ≤ suc size
  same : c.max_memory_entries ≡ suc size

get-IsBounded :
    (c : MediaCache) (size : ℕ) (key : String) (touch_ttl : Option ℕ) (now later : ℕ)
    → IsBounded size c
    → IsBounded size (Memory.get c key touch_ttl now later).1
unfolding Memory.get get_record
get-IsBounded c size key touch_ttl now later h = elim (Option-cases (lookup key c.memory)) [
  | inl gone ↦ rw (gone, Memory.get) h
  | inr (r, found) ↦ elim (Bool-cases (leb r.expires_at now)) [
    | inl late ↦
        rw (found, late, Memory.get, get_record)
          (record {
            entries = ground (
              arith,
              h.entries,
              length-filter (λ (e : String × MemoryRecord). not (str_eq e.0 key)) c.memory,
            );
            same = h.same;
          })
    | inr alive ↦
        rw (found, alive, Memory.get, get_record)
          (record {
            entries = ground (
              arith,
              h.entries,
              length-insert_known key (touched r touch_ttl later) c.memory
                  (has_key_found key c.memory r found),
            );
            same = h.same;
          })
  ]
]

call-IsBounded :
    (size : ℕ) (c : MediaCache) (x : Call) → IsBounded size c → IsBounded size (call c x).1
unfolding call Memory.set Memory.delete prune_memory
call-IsBounded size c (Call.get key touch_ttl now later) h =
    get-IsBounded c size key touch_ttl now later h
call-IsBounded size c (Call.set key payload ttl now later) h = record {
  entries = rw (h.same) (
      length-set size key (record { payload = payload; expires_at = later + ttl })
        (prune_memory c.memory now)
        (ground (arith, h.entries, length-filter (is_alive now) c.memory)));
  same = h.same;
}
call-IsBounded size c (Call.delete key) h = record {
  entries = ground (
    arith,
    h.entries,
    length-filter (λ (e : String × MemoryRecord). not (str_eq e.0 key)) c.memory,
  );
  same = h.same;
}

from_IsBounded :
    (size : ℕ) (c : MediaCache) (xs : List Call)
    → IsBounded size c
    → length (after c xs).memory ≤ suc size
unfolding after
from_IsBounded size c [] h = h.entries
from_IsBounded size c (x ∷ xs) h = from_IsBounded size (call c x).1 xs (call-IsBounded size c x h)

-- Whatever calls are made on a new cache, it never has more entries than its size, which the
-- constructor refuses to be zero.
pub after_within_size :
    (size : ℕ) (xs : List Call) → 0 < size → length (after (empty_cache size) xs).memory ≤ size
after_within_size zero xs h = absurd (omega arith)
after_within_size (suc size) xs h =
    from_IsBounded size (empty_cache (suc size)) xs (record { entries = omega arith; same = refl })

-- A read right after a store returns the payload that was stored, whatever the cache had to evict for
-- it, until the lifetime has passed, counted from the store's second reading of the clock. From then on
-- it returns nothing.
pub get-set :
    (c : MediaCache) (key payload : String) (ttl now later time last : ℕ) (touch_ttl : Option ℕ)
    → (Memory.get (Memory.set c key payload ttl now later) key touch_ttl time last).0
      ≡ (if ltb time (later + ttl) then some payload else none)
unfolding Memory.get Memory.set get_record
get-set c key payload ttl now later time last touch_ttl =
    rw
      (
        lookup-insert key (record { payload = payload; expires_at = later + ttl })
            (make_room c.max_memory_entries key (prune_memory c.memory now)),
        Memory.get,
        get_record,
      )
      (elim (Bool-cases (leb (later + ttl) time)) [
        | inl late ↦ ground arith
        | inr alive ↦ ground arith
      ])
