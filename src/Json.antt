-- ===== src/Json.antt =====
-- Decoded JSON, as the durable store reads and writes it (app/core/job_store.py). `json.dumps` and
-- `json.loads` are inverse to each other on these values, so a column holds the value itself.
use ytdlbot.Prelude.{ℕ, Bool, String, Option, none, some, str_eq, if◌then◌else◌}

-- Numbers are the non-negative integers: update identifiers are.
mutual
  pub data Json : Type 0 where
    null : Json
    bool : Bool → Json
    int : ℕ → Json
    text : String → Json
    array : Items → Json
    object : Fields → Json

  pub data Items : Type 0 where
    nil : Items
    cons : Json → Items → Items

  -- A `dict` whose keys are texts, in insertion order.
  pub data Fields : Type 0 where
    end : Fields
    field : String → Json → Fields → Fields

-- `d.get(key)`
unfoldable pub get : String → Fields → Option Json
get key end = none
get key (field k v rest) = let found = get key rest in if str_eq k key then some v else found

-- `d[key] = value`
unfoldable pub put : String → Json → Fields → Fields
put key value end = field key value end
put key value (field k v rest) =
    let changed = put key value rest in
    if str_eq k key then field k value rest else field k v changed
