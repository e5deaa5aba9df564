-- ===== src/JsonRpc/Json.antt =====
-- The JSON values that jsonrpc and mcp pass on: `boost::json::value` with the members the sources
-- use. An integer is `number`; a double is kept as its text, since no source computes with one.
use boost_taar.Common.{ℕ, Bool, Option, none, some, List, [], ◌∷◌, Bytes, beq, if◌then◌else◌}

-- `negsuc n` is -(n + 1).
pub data ℤ : Type 0 where
  pos : ℕ → ℤ
  negsuc : ℕ → ℤ

mutual
  pub data Value : Type 0 where
    null : Value
    boolean : Bool → Value
    number : ℤ → Value
    real : Bytes → Value
    string : Bytes → Value
    array : Items → Value
    object : Fields → Value

  pub data Items : Type 0 where
    nil : Items
    cons : Value → Items → Items

  pub data Fields : Type 0 where
    end : Fields
    field : Bytes → Value → Fields → Fields

-- `obj.if_contains(key)`
abbrev pub member : Bytes → Fields → Option Value
member key end = none
member key (field k v fs) = if beq k key then some v else member key fs

-- `obj[key] = v`: the value of a key that is there is replaced, another is appended.
abbrev pub assign : Bytes → Value → Fields → Fields
assign key v end = field key v end
assign key v (field k w fs) = if beq k key then field k v fs else field k w (assign key v fs)

-- `push_back` on an array that is being built.
abbrev pub items : List Value → Items
items [] = nil
items (v ∷ vs) = cons v (items vs)

abbrev pub values : Items → List Value
values nil = []
values (cons v vs) = v ∷ values vs
