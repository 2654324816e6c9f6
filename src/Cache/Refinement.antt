-- ===== src/Cache/Refinement.antt =====
-- The cache implements the map without a bound, up to what it has evicted.
use ytdlbot.Prelude.{
  ℕ, ◌+◌, ◌≡◌, ◌⊎◌, refl, sym, ap, ◌∙◌, Bool, not, ◌&&◌, Option, none, some, String, List, [], ◌∷◌,
  str_eq, eq_iff, leb, length, filter, Bool-cases, Option-cases, not_both, inl, inr,
}
use ytdlbot.Prelude.Dict.{
  lookup, has_key, insert, remove, IsDict, lookup-insert, lookup-insert_other, lookup-filter,
  IsDict-filter, IsDict-insert, lookup-remove,
}
use ytdlbot.Cache.Memory
use ytdlbot.Cache.Memory.{
  MemoryRecord, Records, MediaCache, is_alive, prune_memory, oldest, drop_oldest, touched,
  get_record, make_room,
}
use ytdlbot.Cache.Calls.{
  Call, call, call_all, Promises, promise, read_record, answer, answer_all, empty_cache,
}

-- What is kept is what the map has.
pub record IsPart (memory : Records) (m : Promises) : Type 0 where
  keys : IsDict memory
  kept : (k : String) (r : MemoryRecord) → lookup k memory ≡ some r → m k ≡ some r

IsPart-filter :
    (p : String × MemoryRecord → Bool) (memory : Records) (m : Promises)
    → IsPart memory m
    → IsPart (filter p memory) m
IsPart-filter p memory m h = record {
  keys = IsDict-filter p memory h.keys;
  kept = λ k r found. h.kept k r (lookup-filter p k memory r h.keys found);
}

IsPart-insert :
    (key : String) (r : MemoryRecord) (memory : Records) (m : Promises)
    → IsPart memory m
    → IsPart (insert key r memory) (promise m key (some r))
IsPart-insert key r memory m h = record {
  keys = IsDict-insert key r memory h.keys;
  kept = λ k r' found. elim (Bool-cases (str_eq key k)) [
    | inl same ↦ rw same (
        sym (lookup-insert key r memory)
        ∙ ap (λ j. lookup j (insert key r memory)) ((eq_iff key k).0 same)
        ∙ found)
    | inr other ↦ rw other (h.kept k r' (sym (lookup-insert_other key k r memory other) ∙ found))
  ];
}

IsPart-remove :
    (key : String) (memory : Records) (m : Promises)
    → IsPart memory m
    → IsPart (remove key memory) (promise m key none)
IsPart-remove key memory m h =
    let rest : IsPart (remove key memory) m = IsPart-filter _ memory m h in
    record {
      keys = rest.keys;
      kept = λ k r found. elim (Bool-cases (str_eq key k)) [
        | inl same ↦ rw same (
            sym (lookup-remove key memory)
            ∙ ap (λ j. lookup j (remove key memory)) ((eq_iff key k).0 same)
            ∙ found)
        | inr other ↦ rw other (rest.kept k r found)
      ];
    }

IsPart-make_room :
    (size : ℕ) (key : String) (memory : Records) (m : Promises)
    → IsPart memory m
    → IsPart (make_room size key memory) m
unfolding make_room
IsPart-make_room size key memory m h =
    elim (Bool-cases (not (has_key key memory) && leb size (length memory))) [
      | inl full ↦ rw (full, make_room) (dropped memory h)
      | inr room ↦ rw (room, make_room) h
    ]
  where
    dropped : (memory : Records) → IsPart memory m → IsPart (drop_oldest memory) m
    dropped [] h = h
    dropped (entry ∷ memory) h =
        IsPart-filter (λ e. not (str_eq e.0 (oldest entry memory).0)) (entry ∷ memory) m h

-- A read either misses or agrees with the map.
abbrev pub IsPartOf : Option String → Option String → Type 0
IsPartOf found full = (found ≡ none) ⊎ (found ≡ full)

abbrev Refines : Option String × MediaCache → Option String × Promises → Type 0
Refines r s = IsPartOf r.0 s.0 × IsPart r.1.memory s.1

-- A key that the cache does not have may be anything in the map.
IsPart-unknown :
    (key : String) (r : Option MemoryRecord) (memory : Records) (m : Promises)
    → lookup key memory ≡ none
    → IsPart memory m
    → IsPart memory (promise m key r)
IsPart-unknown key r memory m gone h = record {
  keys = h.keys;
  kept = λ k r' found. elim (Bool-cases (str_eq key k)) [
    | inl same ↦
        absurd (not_both (sym (ap (λ j. lookup j memory) ((eq_iff key k).0 same)) ∙ gone) found)
    | inr other ↦ rw other (h.kept k r' found)
  ];
}

module _ (c : MediaCache) (m : Promises) (key : String) (touch_ttl : Option ℕ) (now later : ℕ)
    (h : IsPart c.memory m) where
  missed-Refines :
      (o : Option MemoryRecord)
      → lookup key c.memory ≡ none
      → Refines
          (none, c)
          (elim o [ none ↦ (none, m) | some r ↦ read_record m key touch_ttl now later r ])
  unfolding read_record
  missed-Refines none gone = (inl refl, h)
  missed-Refines (some r) gone = elim (Bool-cases (leb r.expires_at now)) [
    | inl late ↦ rw (late, read_record) (inl refl, h)
    | inr alive ↦
        rw (alive, read_record)
          (inl refl, IsPart-unknown key (some (touched r touch_ttl later)) c.memory m gone h)
  ]

  record-Refines :
      (r : MemoryRecord)
      → Refines (get_record c key touch_ttl now later r) (read_record m key touch_ttl now later r)
  unfolding get_record read_record
  record-Refines r = elim (Bool-cases (leb r.expires_at now)) [
    | inl late ↦
        rw (late, get_record, read_record)
          (inl refl, IsPart-filter (λ e. not (str_eq e.0 key)) c.memory m h)
    | inr alive ↦
        rw (alive, get_record, read_record)
          (inr refl, IsPart-insert key (touched r touch_ttl later) c.memory m h)
  ]

  get-Refines :
      Refines (Memory.get c key touch_ttl now later) (answer m (Call.get key touch_ttl now later))
  unfolding Memory.get answer
  get-Refines = elim (Option-cases (lookup key c.memory)) [
    | inl gone ↦ rw (gone, Memory.get) (missed-Refines (m key) gone)
    | inr (r, found) ↦ rw (found, h.kept key r found, Memory.get, answer) (record-Refines r)
  ]

call-Refines :
    (c : MediaCache) (m : Promises) (x : Call) → IsPart c.memory m → Refines (call c x) (answer m x)
unfolding call Memory.set Memory.delete prune_memory answer
call-Refines c m (Call.get key touch_ttl now later) h = get-Refines c m key touch_ttl now later h
call-Refines c m (Call.set key payload ttl now later) h = (
  inl refl,
  IsPart-insert key (record { payload = payload; expires_at = later + ttl })
      (make_room c.max_memory_entries key (prune_memory c.memory now)) m
      (IsPart-make_room c.max_memory_entries key (prune_memory c.memory now) m
        (IsPart-filter (is_alive now) c.memory m h)),
)
call-Refines c m (Call.delete key) h = (inl refl, IsPart-remove key c.memory m h)

-- Answers at the same places.
abbrev pub ArePartOf : List (Option String) → List (Option String) → Type 0
ArePartOf [] [] = Unit
ArePartOf (r ∷ rs) (s ∷ ss) = IsPartOf r s × ArePartOf rs ss
ArePartOf _ _ = ⊥

from_IsPart :
    (c : MediaCache) (m : Promises) (xs : List Call)
    → IsPart c.memory m
    → ArePartOf (call_all c xs) (answer_all m xs)
unfolding call_all answer_all
from_IsPart c m [] h = tt
from_IsPart c m (x ∷ xs) h =
    let k = call-Refines c m x h in (k.0, from_IsPart (call c x).1 (answer m x).1 xs k.1)

-- Whatever calls are made on a new cache, in any order and at any times, each read returns nothing or
-- what the unbounded map returns: the payload last stored under the key, if it was not deleted and has
-- not expired by the lifetime of the store or of the last read that prolonged it. So eviction loses
-- records and never returns a stale or a foreign one.
pub call_all-ArePartOf :
    (size : ℕ) (xs : List Call)
    → ArePartOf (call_all (empty_cache size) xs) (answer_all (λ key. none) xs)
call_all-ArePartOf size xs =
    from_IsPart (empty_cache size) (λ key. none) xs
      (record { keys = tt; kept = λ k r found. found })
