-- ===== src/Audit/Value.antt =====
-- JSON values: what the column `meta` of an audit row holds, and what `json.dumps` is given. A
-- dictionary keeps its insertion order; `negative n` is the number -(n + 1), and a float is its repr.
use egreen_quanta_tes.Base.{ℕ, String, Bool, Option, none, some}

mutual
  pub data Value : Type 0 where
    null : Value
    bool : Bool → Value
    num : ℕ → Value
    negative : ℕ → Value
    float : String → Value
    str : String → Value
    dict : Fields → Value
    arr : Items → Value

  pub data Fields : Type 0 where
    end : Fields
    field : String → Value → Fields → Fields

  pub data Items : Type 0 where
    nil : Items
    cons : Value → Items → Items

-- A `str | None`.
abbrev pub opt_str : Option String → Value
opt_str none = null
opt_str (some s) = str s
